-- ===== src/Gateway/Exec.antt =====
-- What a policy permits of a session's requests (src/ssh/mod.rs). A command is given as the text
-- that `str::from_utf8` makes of its bytes, if it makes one.
use central_ssh.Prelude.{
  Bool, true, false, not, ◌&&◌, ◌||◌, Option, none, some, and_then, List, [], ◌∷◌, ◌++◌, Result, ok,
  err, ◌==◌, if◌then◌else◌, is_empty,
}
use central_ssh.Prelude.Text.{Text, codes, text_eq, len, trim, starts_with, split, is_whitespace}
use central_ssh.Config.Types.{EffectiveAuthorizationPolicy}

-- The mode that a request is refused as: "sink" or "source".
pub data Mode : Type 0 where
  sink source : Mode

unfoldable pub local_forwarding_permitted : EffectiveAuthorizationPolicy → Bool
local_forwarding_permitted policy = policy.allow_local_forwarding

unfoldable pub remote_forwarding_permitted : EffectiveAuthorizationPolicy → Bool
remote_forwarding_permitted policy = policy.allow_remote_forwarding

unfoldable pub subsystem_request_permitted : EffectiveAuthorizationPolicy → Text → Bool
subsystem_request_permitted policy name = not (text_eq name (codes "sftp")) || policy.allow_sftp

-- Puts a token behind those before it, unless it is empty.
abbrev pub push_token : List Text → Text → List Text
push_token tokens current = if is_empty current then tokens else tokens ++ current ∷ []

-- The loop of `shell_like_split`, with `in_single`, `in_double`, whether a backslash waits for the
-- next character, `tokens` and `current`.
unfoldable pub split_loop : Bool → Bool → Bool → List Text → Text → Text → Option (List Text)
split_loop in_single in_double true tokens current [] = none
split_loop in_single in_double true tokens current (escaped ∷ chars) =
    split_loop in_single in_double false tokens (current ++ escaped ∷ []) chars
split_loop in_single in_double false tokens current [] =
    if in_single || in_double then none else some (push_token tokens current)
split_loop in_single in_double false tokens current (ch ∷ chars) =
    elim (ch == 0x27 && not in_double) [
      | true ↦ split_loop (not in_single) in_double false tokens current chars
      | false ↦ elim (ch == b'"' && not in_single) [
        | true ↦ split_loop in_single (not in_double) false tokens current chars
        | false ↦ elim (ch == b'\\' && not in_single) [
          | true ↦ split_loop in_single in_double true tokens current chars
          | false ↦ elim (is_whitespace ch && not in_single && not in_double) [
            | true ↦ split_loop in_single in_double false (push_token tokens current) [] chars
            | false ↦ split_loop in_single in_double false tokens (current ++ ch ∷ []) chars
          ]
        ]
      ]
    ]

unfoldable pub shell_like_split : Text → Option (List Text)
unfolding split_loop
shell_like_split command = split_loop false false false [] [] command

-- The last piece between slashes: `rsplit('/').next()`.
unfoldable pub last_piece : Text → List Text → Text
last_piece piece [] = piece
last_piece piece (next ∷ pieces) = last_piece next pieces

unfoldable pub basename : Text → Text
unfolding last_piece
basename executable = last_piece executable (split b'/' executable)

-- The loop over the flags of a token.
unfoldable pub flag_mode : Text → Option Mode
flag_mode [] = none
flag_mode (c ∷ flags) =
    if c == b't' then some sink else if c == b'f' then some source else flag_mode flags

-- The second byte of a token, as a flag.
unfoldable pub second_mode : Text → Option Mode
second_mode [] = none
second_mode (_ ∷ []) = none
second_mode (_ ∷ c ∷ _) = if c == b't' then some sink else if c == b'f' then some source else none

-- What one token says: of two bytes the second one counts, of more all behind the first.
unfoldable pub token_mode : Text → Option Mode
unfolding flag_mode second_mode
token_mode token =
    if not (starts_with token (codes "-")) || text_eq token (codes "-")
    then none
    else if len token == 2
    then second_mode token
    else elim token [ [] ↦ none | _ ∷ flags ↦ flag_mode flags ]

-- The loop over the tokens behind the executable, up to a double dash.
unfoldable pub tokens_mode : List Text → Option Mode
unfolding token_mode
tokens_mode [] = none
tokens_mode (token ∷ tokens) =
    if text_eq token (codes "--")
    then none
    else elim (token_mode token) [ some mode ↦ some mode | none ↦ tokens_mode tokens ]

unfoldable pub classify_scp_exec_request : Option Text → Option Mode
unfolding shell_like_split basename tokens_mode
classify_scp_exec_request request = and_then request λ text.
    let command = trim text in
    if is_empty command
    then none
    else and_then (shell_like_split command) λ tokens. elim tokens [
      | [] ↦ none
      | executable ∷ arguments ↦
          if not (text_eq (basename executable) (codes "scp")) then none else tokens_mode arguments
    ]

unfoldable pub validate_exec_request :
    EffectiveAuthorizationPolicy → Option Text → Result Mode (Unit {0})
unfolding classify_scp_exec_request
validate_exec_request policy request =
    if not policy.allow_scp
    then elim (classify_scp_exec_request request) [ none ↦ ok tt | some mode ↦ err mode ]
    else ok tt
