-- ===== src/Gateway/Transfers.antt =====
-- Which commands the check of exec requests refuses (src/ssh/mod.rs).
use central_ssh.Prelude.{
  ℕ, ◌≡◌, ◌↔◌, refl, ap, ◌∙◌, inl, inr, Bool, true, false, not, ◌&&◌, ◌||◌, some, is_some, List, [],
  ◌∷◌, ◌++◌, ok, ◌==◌, if◌then◌else◌, is_empty, all, any, All, arith, Option-cases,
}
use central_ssh.Prelude.Text.{
  Text, codes, text_eq, trim, starts_with, is_whitespace, join, append_nil, append_assoc, len,
}
use central_ssh.Config.Types.{EffectiveAuthorizationPolicy}
use central_ssh.Gateway.Exec.{
  split_loop, shell_like_split, basename, flag_mode, second_mode, token_mode, tokens_mode,
  classify_scp_exec_request, validate_exec_request,
}

-- A character that `shell_like_split` keeps as it is outside of quotes.
abbrev pub is_plain : ℕ → Bool
is_plain c = not (c == 0x27) && not (c == b'"') && not (c == b'\\') && not (is_whitespace c)

-- A word of such characters.
abbrev pub IsWord : Text → Type 0
IsWord w = (is_empty w ≡ false) × (all is_plain w ≡ true)

and_parts : (a b : Bool) → (a && b) ≡ true → (a ≡ true) × (b ≡ true)
and_parts a b h = ground arith

plain_step :
    (tokens : List Text) (current rest : Text) (c : ℕ)
    → (c == 0x27) ≡ false
    → (c == b'"') ≡ false
    → (c == b'\\') ≡ false
    → is_whitespace c ≡ false
    → split_loop false false false tokens current (c ∷ rest)
      ≡ split_loop false false false tokens (current ++ c ∷ []) rest
unfolding split_loop
plain_step tokens current rest c single double back blank =
    rw (single, double, back, blank, split_loop) refl

plain_parts :
    (c : ℕ)
    → is_plain c ≡ true
    → ((c == 0x27) ≡ false)
      × ((c == b'"') ≡ false)
      × ((c == b'\\') ≡ false)
      × (is_whitespace c ≡ false)
plain_parts c h = ground arith

all_parts :
    (c : ℕ) (w : Text) → all is_plain (c ∷ w) ≡ true → (is_plain c ≡ true) × (all is_plain w ≡ true)
all_parts c w h = and_parts (is_plain c) (all is_plain w) h

split_word :
    (tokens : List Text) (current w rest : Text)
    → all is_plain w ≡ true
    → split_loop false false false tokens current (w ++ rest)
      ≡ split_loop false false false tokens (current ++ w) rest
split_word tokens current [] rest h = rw (append_nil current) refl
split_word tokens current (c ∷ w) rest h =
    let (first, others) = all_parts c w h in
    let (single, double, back, blank) = plain_parts c first in
    plain_step tokens current (w ++ rest) c single double back blank
    ∙ (split_word tokens (current ++ c ∷ []) w rest others
        ∙ ap (λ t. split_loop false false false tokens t rest) (append_assoc current (c ∷ []) w))

space_step :
    (tokens : List Text) (w rest : Text)
    → is_empty w ≡ false
    → split_loop false false false tokens w (0x20 ∷ rest)
      ≡ split_loop false false false (tokens ++ w ∷ []) [] rest
unfolding split_loop
space_step tokens w rest h = rw (h, split_loop) refl

words_split :
    (tokens : List Text) (w : Text) (ws : List Text)
    → IsWord w
    → All IsWord ws
    → split_loop false false false tokens [] (join 0x20 (w ∷ ws)) ≡ some (tokens ++ w ∷ ws)
unfolding split_loop
words_split tokens w [] h hs = ground (arith, split_word tokens [] w [] h.1, append_nil w, h.0)
words_split tokens w (v ∷ ws) h hs =
    split_word tokens [] w (0x20 ∷ join 0x20 (v ∷ ws)) h.1
    ∙ (space_step tokens w (join 0x20 (v ∷ ws)) h.0
        ∙ (words_split (tokens ++ w ∷ []) v ws hs.0 hs.1
            ∙ ap some (append_assoc tokens (w ∷ []) (v ∷ ws))))

-- Words of plain characters with a space between them are split into these words.
pub shell_like_split-join :
    (w : Text) (ws : List Text)
    → All IsWord (w ∷ ws)
    → shell_like_split (join 0x20 (w ∷ ws)) ≡ some (w ∷ ws)
unfolding shell_like_split
shell_like_split-join w ws h = words_split [] w ws h.0 h.1

-- The arguments up to a double dash.
abbrev pub options : List Text → List Text
options [] = []
options (a ∷ args) = if text_eq a (codes "--") then [] else a ∷ options args

abbrev pub is_mode_flag : ℕ → Bool
is_mode_flag c = c == b't' || c == b'f'

-- An option with a mode flag in it.
abbrev pub has_mode_flag : Text → Bool
has_mode_flag [] = false
has_mode_flag (c ∷ flags) = c == b'-' && any is_mode_flag flags

flag_mode-some : (flags : Text) → is_some (flag_mode flags) ≡ any is_mode_flag flags
unfolding flag_mode
flag_mode-some [] = refl
flag_mode-some (c ∷ flags) = ground (arith, flag_mode-some flags)

three_long : (c d e : ℕ) (flags : Text) → (len (c ∷ d ∷ e ∷ flags) == 2) ≡ false
unfolding len
three_long c d e flags = ground arith

token_mode-some : (token : Text) → is_some (token_mode token) ≡ has_mode_flag token
unfolding token_mode second_mode text_eq starts_with len flag_mode
token_mode-some [] = refl
token_mode-some (c ∷ []) = ground arith
token_mode-some (c ∷ d ∷ []) = ground arith
token_mode-some (c ∷ d ∷ e ∷ flags) =
    ground (arith, three_long c d e flags, flag_mode-some (d ∷ e ∷ flags))

tokens_mode-some :
    (tokens : List Text) → is_some (tokens_mode tokens) ≡ any has_mode_flag (options tokens)
unfolding tokens_mode
tokens_mode-some [] = refl
tokens_mode-some (t ∷ ts) = ground (arith, tokens_mode-some ts, token_mode-some t)

-- A command that is not blank and splits into an executable and arguments is accepted exactly when
-- the policy allows scp, or the last path part of the executable is not scp, or no argument before
-- a double dash begins with a dash and holds a t or an f.
pub validate_exec_request_iff :
    (policy : EffectiveAuthorizationPolicy) (command executable : Text) (arguments : List Text)
    → is_empty (trim command) ≡ false
    → shell_like_split (trim command) ≡ some (executable ∷ arguments)
    → (validate_exec_request policy (some command) ≡ ok tt) ↔ (
        (policy.allow_scp
          || not (text_eq (basename executable) (codes "scp"))
          || not (any has_mode_flag (options arguments)))
        ≡ true)
unfolding validate_exec_request classify_scp_exec_request
validate_exec_request_iff policy command executable arguments some_text words =
    elim (Option-cases (tokens_mode arguments)) [
      | inl no_mode ↦ ground (arith, words, no_mode, tokens_mode-some arguments)
      | inr (m, mode) ↦ ground (arith, words, mode, tokens_mode-some arguments)
    ]
