-- ===== src/Gateway/Keys.antt =====
-- What the menu of src/ssh/mod.rs makes of typed bytes.
use central_ssh.Prelude.{
  ℕ, ◌≡◌, refl, ap, ◌∙◌, inl, inr, Bool, true, false, not, ◌&&◌, ◌||◌, Option, none, some, List, [],
  ◌∷◌, ◌++◌, ◌==◌, leb, arith, Bool-cases, Option-cases, all, if_intro,
}
use central_ssh.Prelude.Text.{codes, append_assoc, append_nil}
use central_ssh.Gateway.Menu.{
  MenuEscapeState, no_escape, saw_escape, saw_csi, MenuByteAction, ignore, complete_escape_sequence,
  submit_line, backspace, echo_and_buffer, menu_input_byte_action, Menu, pop, menu_action,
  menu_byte, menu_bytes,
}

-- A printable ASCII character.
abbrev pub is_printable : ℕ → Bool
is_printable b = leb 0x20 b && leb b 0x7e

-- A byte that the menu may write: printable, or a backspace, carriage return or line feed.
abbrev pub is_shown : ℕ → Bool
is_shown b = is_printable b || b == 0x08 || b == 0x0d || b == 0x0a

pub record IsClean (m : Menu) : Type 0 where
  pub buffered : all is_printable m.input_buffer ≡ true
  pub shown : all is_shown m.terminal ≡ true

all-append : (p : ℕ → Bool) (xs ys : List ℕ) → all p (xs ++ ys) ≡ (all p xs && all p ys)
all-append p [] ys = refl
all-append p (x ∷ xs) ys = ground (arith, all-append p xs ys)

pop-all :
    (p : ℕ → Bool) (bs : List ℕ) {rest : List ℕ}
    → all p bs ≡ true
    → pop bs ≡ some rest
    → all p rest ≡ true
unfolding pop
pop-all p [] h e = cc
pop-all p (b ∷ bs) {rest} h e = elim (Option-cases (pop bs)) [
  | inl last ↦ ground (arith, last)
  | inr (r, more) ↦ ground (arith, more, pop-all p bs {rest = r})
]

-- A submitted line, if there is one, is printable.
abbrev pub IsCleanLine : Option (List ℕ) → Type 0
IsCleanLine none = Unit
IsCleanLine (some l) = all is_printable l ≡ true

abbrev StepIsClean : Option (List ℕ) × Menu → Type 0
StepIsClean (line, m) = IsCleanLine line × IsClean m

echoed :
    (m : Menu) (b : ℕ)
    → IsClean m
    → is_printable b ≡ true
    → IsClean
        (record m { input_buffer = m.input_buffer ++ b ∷ []; terminal = m.terminal ++ b ∷ [] })
echoed m b v h = record {
  buffered = ground (arith, all-append is_printable m.input_buffer (b ∷ []), v.buffered);
  shown = ground (arith, all-append is_shown m.terminal (b ∷ []), v.shown);
}

-- Only printable bytes are echoed.
EchoesPrintable : MenuByteAction → Type 0
EchoesPrintable (echo_and_buffer b) = is_printable b ≡ true
EchoesPrintable _ = Unit

action-EchoesPrintable :
    (s : MenuEscapeState) (byte : ℕ) → EchoesPrintable (menu_input_byte_action s byte).0
unfolding menu_input_byte_action EchoesPrintable
action-EchoesPrintable no_escape byte = elim (Bool-cases (is_printable byte)) [
  | inl fine ↦
      if_intro {A = MenuByteAction × MenuEscapeState} (λ p. EchoesPrintable p.0)
        (byte == 0x0d || byte == 0x0a) tt
        (if_intro {A = MenuByteAction × MenuEscapeState} (λ p. EchoesPrintable p.0)
          (byte == 0x08 || byte == 0x7f) tt
          (if_intro {A = MenuByteAction × MenuEscapeState} (λ p. EchoesPrintable p.0) (byte == 0x1b)
            tt
            (if_intro {A = MenuByteAction × MenuEscapeState} (λ p. EchoesPrintable p.0)
              (leb 0x20 byte && leb byte 0x7e) fine tt)))
  | inr bad ↦
      if_intro {A = MenuByteAction × MenuEscapeState} (λ p. EchoesPrintable p.0)
        (byte == 0x0d || byte == 0x0a) tt
        (if_intro {A = MenuByteAction × MenuEscapeState} (λ p. EchoesPrintable p.0)
          (byte == 0x08 || byte == 0x7f) tt
          (if_intro {A = MenuByteAction × MenuEscapeState} (λ p. EchoesPrintable p.0) (byte == 0x1b)
            tt (rw bad tt)))
]
action-EchoesPrintable saw_escape byte = tt
action-EchoesPrintable saw_csi byte =
    if_intro {A = MenuByteAction × MenuEscapeState} (λ p. EchoesPrintable p.0)
      (leb 0x40 byte && leb byte 0x7e) tt tt

menu_action-IsClean :
    (a : MenuByteAction) (m : Menu) → EchoesPrintable a → IsClean m → StepIsClean (menu_action a m)
unfolding menu_action EchoesPrintable
menu_action-IsClean ignore m h v = (tt, v)
menu_action-IsClean complete_escape_sequence m h v = (tt, v)
menu_action-IsClean submit_line m h v = (
  v.buffered,
  record {
    buffered = refl;
    shown = ground (arith, all-append is_shown m.terminal (codes "\r\n"), v.shown);
  },
)
menu_action-IsClean backspace m h v = elim (Option-cases (pop m.input_buffer)) [
  | inl nothing ↦ rw (nothing, menu_action) (tt, v)
  | inr (rest, less) ↦
      rw (less, menu_action)
        (
          tt,
          record {
            buffered = pop-all is_printable m.input_buffer v.buffered less;
            shown =
                ground (arith, all-append is_shown m.terminal (0x08 ∷ 0x20 ∷ 0x08 ∷ []), v.shown);
          },
        )
]
menu_action-IsClean (echo_and_buffer b) m h v = (tt, echoed m b v h)

menu_byte-IsClean : (byte : ℕ) (m : Menu) → IsClean m → StepIsClean (menu_byte byte m)
unfolding menu_byte
menu_byte-IsClean byte m v =
    menu_action-IsClean (menu_input_byte_action m.menu_escape_state byte).0
      (record m { menu_escape_state = (menu_input_byte_action m.menu_escape_state byte).1 })
      (action-EchoesPrintable m.menu_escape_state byte)
      (record { buffered = v.buffered; shown = v.shown })

-- If the buffer is printable ASCII and the terminal was written only printable ASCII, backspaces
-- and line ends, then this is so after any bytes, and a line that is submitted is printable ASCII.
pub menu_bytes-IsClean :
    (bytes : List ℕ) (m : Menu)
    → IsClean m
    → IsCleanLine (menu_bytes bytes m).0 × IsClean (menu_bytes bytes m).1
unfolding menu_bytes
menu_bytes-IsClean [] m v = (tt, v)
menu_bytes-IsClean (byte ∷ bytes) m v =
    let step = menu_byte-IsClean byte m v in
    elim (Option-cases (menu_byte byte m).0) [
      | inl more ↦ rw (more, menu_bytes) (menu_bytes-IsClean bytes (menu_byte byte m).1 step.1)
      | inr (l, line) ↦ rw (line, menu_bytes) (rw line at step)
    ]

-- A byte inside a control sequence: its last byte is one of 0x40 to 0x7e, the others are not.
abbrev pub is_final : ℕ → Bool
is_final b = leb 0x40 b && leb b 0x7e

inner_byte : (b : ℕ) → is_final b ≡ false → menu_input_byte_action saw_csi b ≡ (ignore, saw_csi)
unfolding menu_input_byte_action
inner_byte b h = rw h refl

final_byte :
    (b : ℕ)
    → is_final b ≡ true
    → menu_input_byte_action saw_csi b ≡ (complete_escape_sequence, no_escape)
unfolding menu_input_byte_action
final_byte b h = rw h refl

printable_byte :
    (b : ℕ)
    → is_printable b ≡ true
    → menu_input_byte_action no_escape b ≡ (echo_and_buffer b, no_escape)
unfolding menu_input_byte_action
printable_byte b h = ground arith

-- The channel in a state, with a buffer and a terminal.
abbrev pub menu_in : MenuEscapeState → List ℕ → List ℕ → Menu
menu_in state buffer terminal = record {
  menu_escape_state = state;
  input_buffer = buffer;
  terminal = terminal;
}

-- A byte that submits no line.
menu_bytes_next :
    (b : ℕ) (rest : List ℕ) (m m' : Menu)
    → menu_byte b m ≡ (none, m')
    → menu_bytes (b ∷ rest) m ≡ menu_bytes rest m'
unfolding menu_bytes
menu_bytes_next b rest m m' h =
    ap {B = Option (List ℕ) × Menu}
      (λ (p : Option (List ℕ) × Menu). elim p.0 as (λ _. Option (List ℕ) × Menu) [
        | some l ↦ (some l, p.1)
        | none ↦ menu_bytes rest p.1
      ])
      h

menu_byte_lem :
    (state state' : MenuEscapeState) (b : ℕ) (buffer terminal : List ℕ) (a : MenuByteAction)
    → menu_input_byte_action state b ≡ (a, state')
    → menu_byte b (menu_in state buffer terminal) ≡ menu_action a (menu_in state' buffer terminal)
unfolding menu_byte
menu_byte_lem state state' b buffer terminal a h = rw (h, menu_byte) refl

csi_skips :
    (params : List ℕ) (final : ℕ) (rest buffer terminal : List ℕ)
    → all (λ b. not (is_final b)) params ≡ true
    → is_final final ≡ true
    → menu_bytes (params ++ final ∷ rest) (menu_in saw_csi buffer terminal)
      ≡ menu_bytes rest (menu_in no_escape buffer terminal)
unfolding menu_action
csi_skips [] final rest buffer terminal h last =
    menu_bytes_next final rest (menu_in saw_csi buffer terminal) (menu_in no_escape buffer terminal)
      (menu_byte_lem saw_csi no_escape final buffer terminal complete_escape_sequence
        (final_byte final last))
csi_skips (b ∷ params) final rest buffer terminal h last = elim (Bool-cases (is_final b)) [
  | inl early ↦ absurd (ground (arith, early))
  | inr inner ↦
      menu_bytes_next b (params ++ final ∷ rest) (menu_in saw_csi buffer terminal)
        (menu_in saw_csi buffer terminal)
        (menu_byte_lem saw_csi saw_csi b buffer terminal ignore (inner_byte b inner))
      ∙ csi_skips params final rest buffer terminal (ground arith) last
]

-- Outside of a control sequence, a whole one, as a cursor key sends it, changes nothing: neither
-- the buffer nor the terminal, and what follows is read as if it had not been there.
pub control_sequence_ignored :
    (params : List ℕ) (final : ℕ) (rest buffer terminal : List ℕ)
    → all (λ b. not (is_final b)) params ≡ true
    → is_final final ≡ true
    → menu_bytes (0x1b ∷ b'[' ∷ (params ++ final ∷ rest)) (menu_in no_escape buffer terminal)
      ≡ menu_bytes rest (menu_in no_escape buffer terminal)
unfolding menu_bytes
control_sequence_ignored params final rest buffer terminal h last =
    csi_skips params final rest buffer terminal h last

-- Outside of a control sequence, a printable line that is typed and ended with a carriage return
-- is submitted, behind what the buffer holds, as it was typed.
pub typed_line_submitted :
    (typed rest buffer terminal : List ℕ)
    → all is_printable typed ≡ true
    → (menu_bytes (typed ++ 0x0d ∷ rest) (menu_in no_escape buffer terminal)).0
      ≡ some (buffer ++ typed)
unfolding menu_bytes menu_action
typed_line_submitted [] rest buffer terminal h = rw (append_nil buffer) refl
typed_line_submitted (b ∷ typed) rest buffer terminal h =
    let fine : is_printable b ≡ true = ground arith in
    ap (λ r. r.0)
      (menu_bytes_next b (typed ++ 0x0d ∷ rest) (menu_in no_escape buffer terminal)
        (menu_in no_escape (buffer ++ b ∷ []) (terminal ++ b ∷ []))
        (menu_byte_lem no_escape no_escape b buffer terminal (echo_and_buffer b)
          (printable_byte b fine)))
    ∙ (typed_line_submitted typed rest (buffer ++ b ∷ []) (terminal ++ b ∷ []) (ground arith)
        ∙ ap some (append_assoc buffer (b ∷ []) typed))
