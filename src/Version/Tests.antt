-- ===== src/Version/Tests.antt =====
-- The theorems about src/version_support.rs at concrete tags, versions and manifests.
use central_ssh.Prelude.{◌≡◌, refl, true, false, some, List, [], ◌∷◌, ◌++◌, ok}
use central_ssh.Prelude.Text.{
  trim, split_once, ends_with_char, has_char, text_eq, Text, codes, starts_with,
}
use central_ssh.Version.Tag.{split_version, split_inclusive, version_line, rewrite_manifest_version}
use central_ssh.Version.Grammar.{
  concat, is_version_line, IsInPackage, has_version, rewrite_manifest_version_sound,
}

beta :
    split_version (codes "1.0.0-beta+7") ≡ ok (codes "1.0.0", some (codes "beta"), some (codes "7"))
unfolding split_version split_once has_char
beta = refl

abbrev manifest : Text
manifest = codes "[package]\nversion = \"0.1.0\"\n[lib]\n"

abbrev released : Text
released = codes "[package]\nversion = \"2.0.0\"\n[lib]\n"

rewritten : rewrite_manifest_version manifest (codes "2.0.0") ≡ ok released
unfolding rewrite_manifest_version starts_with trim ends_with_char text_eq
rewritten = refl

rewrite_manifest_version_sound_example :
    (before : List Text) × (line : Text) × (behind : List Text) × (split_inclusive manifest
      ≡ before ++ line ∷ behind)
    × (concat (split_inclusive manifest) ≡ manifest)
    × IsInPackage (before ++ line ∷ [])
    × (is_version_line line ≡ true)
    × (has_version false before ≡ false)
    × (released ≡ concat before ++ (version_line (codes "2.0.0") ++ concat behind))
rewrite_manifest_version_sound_example =
    rewrite_manifest_version_sound manifest (codes "2.0.0") released rewritten
