-- ===== src/Gateway/Tests.antt =====
-- The theorems about src/ssh/mod.rs at concrete commands and keys.
use central_ssh.Prelude.{
  ◌≡◌, ◌↔◌, refl, true, false, not, ◌||◌, some, [], ◌∷◌, ◌++◌, ok, is_empty, any,
}
use central_ssh.Prelude.Text.{Text, codes, text_eq, trim}
use central_ssh.Config.Types.{EffectiveAuthorizationPolicy}
use central_ssh.Gateway.Exec.{shell_like_split, basename, validate_exec_request}
use central_ssh.Gateway.Transfers.{has_mode_flag, options, validate_exec_request_iff}
use central_ssh.Gateway.Menu.{no_escape, menu_bytes}
use central_ssh.Gateway.Keys.{
  IsClean, IsCleanLine, menu_in, menu_bytes-IsClean, typed_line_submitted,
}

abbrev no_copies : EffectiveAuthorizationPolicy
no_copies = record {
  allow_local_forwarding = false;
  allow_remote_forwarding = false;
  allow_sftp = false;
  allow_scp = false;
}

abbrev upload : Text
upload = codes " '/usr/bin/scp' -rt /tmp"

upload_text : is_empty (trim upload) ≡ false
unfolding trim
upload_text = refl

upload_words :
    shell_like_split (trim upload) ≡ some (codes "/usr/bin/scp" ∷ codes "-rt" ∷ codes "/tmp" ∷ [])
unfolding trim shell_like_split
upload_words = refl

validate_exec_request_iff_example : (validate_exec_request no_copies (some upload) ≡ ok tt) ↔ (
    (false
      || not (text_eq (basename (codes "/usr/bin/scp")) (codes "scp"))
      || not (any has_mode_flag (options (codes "-rt" ∷ codes "/tmp" ∷ []))))
    ≡ true)
validate_exec_request_iff_example =
    validate_exec_request_iff no_copies upload (codes "/usr/bin/scp")
      (codes "-rt" ∷ codes "/tmp" ∷ []) upload_text upload_words

menu_bytes-IsClean_example :
    IsCleanLine (menu_bytes (0x07 ∷ b'2' ∷ 0x0d ∷ []) (menu_in no_escape [] [])).0
    × IsClean (menu_bytes (0x07 ∷ b'2' ∷ 0x0d ∷ []) (menu_in no_escape [] [])).1
menu_bytes-IsClean_example =
    menu_bytes-IsClean (0x07 ∷ b'2' ∷ 0x0d ∷ []) (menu_in no_escape [] [])
      (record { buffered = refl; shown = refl })

typed_line_submitted_example :
    (menu_bytes (codes "12" ++ 0x0d ∷ []) (menu_in no_escape (codes "3") (codes "3"))).0
    ≡ some (codes "312")
typed_line_submitted_example = typed_line_submitted (codes "12") [] (codes "3") (codes "3") refl
