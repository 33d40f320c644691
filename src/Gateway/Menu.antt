-- ===== src/Gateway/Menu.antt =====
-- The bytes that a user types into the menu (src/ssh/mod.rs: `menu_input_byte_action` and the loop
-- of `handle_menu_channel_input`).
use central_ssh.Prelude.{
  ℕ, ◌&&◌, ◌||◌, Option, none, some, List, [], ◌∷◌, ◌++◌, ◌==◌, leb, if◌then◌else◌,
}
use central_ssh.Prelude.Text.{codes}

pub data MenuEscapeState : Type 0 where
  no_escape saw_escape saw_csi : MenuEscapeState

pub data MenuByteAction : Type 0 where
  ignore complete_escape_sequence submit_line backspace : MenuByteAction
  echo_and_buffer : ℕ → MenuByteAction

unfoldable pub menu_input_byte_action : MenuEscapeState → ℕ → MenuByteAction × MenuEscapeState
menu_input_byte_action no_escape byte =
    if byte == 0x0d || byte == 0x0a
    then (submit_line, no_escape)
    else if byte == 0x08 || byte == 0x7f
    then (backspace, no_escape)
    else if byte == 0x1b
    then (ignore, saw_escape)
    else if leb 0x20 byte && leb byte 0x7e
    then (echo_and_buffer byte, no_escape)
    else (ignore, no_escape)
menu_input_byte_action saw_escape byte = (ignore, if byte == b'[' then saw_csi else no_escape)
menu_input_byte_action saw_csi byte =
    if leb 0x40 byte && leb byte 0x7e
    then (complete_escape_sequence, no_escape)
    else (ignore, saw_csi)

-- The fields of a channel that the loop uses, and what it writes to the terminal.
pub record Menu : Type 0 where
  pub menu_escape_state : MenuEscapeState
  pub input_buffer : List ℕ
  pub terminal : List ℕ

-- `Vec::pop` on the buffer: what is left, if there was anything.
unfoldable pub pop : List ℕ → Option (List ℕ)
pop [] = none
pop (b ∷ bs) = elim (pop bs) [ none ↦ some [] | some rest ↦ some (b ∷ rest) ]

-- What the loop does for an action: the line that it submits, if it does, and the channel behind it.
unfoldable pub menu_action : MenuByteAction → Menu → Option (List ℕ) × Menu
unfolding pop
menu_action ignore m = (none, m)
menu_action complete_escape_sequence m = (none, m)
menu_action submit_line m =
    (some m.input_buffer, record m { input_buffer = []; terminal = m.terminal ++ codes "\r\n" })
menu_action backspace m = elim (pop m.input_buffer) [
  | none ↦ (none, m)
  | some rest ↦
      (none, record m { input_buffer = rest; terminal = m.terminal ++ 0x08 ∷ 0x20 ∷ 0x08 ∷ [] })
]
menu_action (echo_and_buffer b) m =
    (none, record m { input_buffer = m.input_buffer ++ b ∷ []; terminal = m.terminal ++ b ∷ [] })

unfoldable pub menu_byte : ℕ → Menu → Option (List ℕ) × Menu
unfolding menu_input_byte_action menu_action
menu_byte byte m =
    let (action, state) = menu_input_byte_action m.menu_escape_state byte in
    menu_action action (record m { menu_escape_state = state })

-- The loop over the bytes of a packet: it ends with the first line that is submitted.
unfoldable pub menu_bytes : List ℕ → Menu → Option (List ℕ) × Menu
unfolding menu_byte
menu_bytes [] m = (none, m)
menu_bytes (byte ∷ bytes) m =
    let (line, m') = menu_byte byte m in
    elim line [ some l ↦ (some l, m') | none ↦ menu_bytes bytes m' ]
