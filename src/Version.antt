-- ===== src/Version.antt =====
-- Release tags and versions (src/version_support.rs).
pub mod Tag
pub mod Grammar
mod Tests
