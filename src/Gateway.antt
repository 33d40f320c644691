-- ===== src/Gateway.antt =====
-- The gateway (src/ssh): the check of exec requests and the menu's input.
pub mod Exec
pub mod Menu
pub mod Transfers
pub mod Keys
pub mod Login
pub mod Requests
mod Tests
