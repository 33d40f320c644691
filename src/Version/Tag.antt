-- ===== src/Version/Tag.antt =====
-- The functions of src/version_support.rs.
use central_ssh.Prelude.{
  ℕ, zero, suc, Bool, true, false, not, ◌&&◌, ◌||◌, Option, none, some, or_else, List, [], ◌∷◌,
  ◌++◌, Result, ok, err, ◌>>=◌, ◌>>◌, fail_if, ok_or, ltb, ◌==◌, if◌then◌else◌, is_empty, all,
}
use central_ssh.Prelude.Text.{
  Text, codes, text_eq, len, trim, starts_with, ends_with_char, has_char, split, split_once,
  is_ascii_digit, is_ascii_alphanumeric, cr, lf,
}

-- `VersionError`, one constructor for each message.
pub data VersionError : Type 0 where
  bad_prefix bad_build bad_prerelease not_three_parts empty_identifier bad_character : VersionError
  not_numeric leading_zero no_version_line : VersionError

-- `str::strip_prefix` of a character.
unfoldable pub strip_char : ℕ → Text → Option Text
strip_char d [] = none
strip_char d (c ∷ s) = if c == d then some s else none

unfoldable pub validate_numeric_identifier : Text → Bool → Result VersionError (Unit {0})
validate_numeric_identifier value prerelease = do
  fail_if (is_empty value) empty_identifier
  fail_if (not (all is_ascii_digit value)) not_numeric
  fail_if (ltb 1 (len value) && starts_with value (codes "0")) leading_zero
  fail_if (prerelease && starts_with value (codes "0") && ltb 1 (len value)) leading_zero

abbrev pub is_identifier_char : ℕ → Bool
is_identifier_char c = is_ascii_alphanumeric c || c == b'-'

-- The loop over the identifiers.
unfoldable pub check_identifiers : List Text → Bool → Result VersionError (Unit {0})
check_identifiers [] forbid = ok tt
check_identifiers (ident ∷ idents) forbid = do
  fail_if (is_empty ident) empty_identifier
  fail_if (not (all is_identifier_char ident)) bad_character
  if forbid && all is_ascii_digit ident then validate_numeric_identifier ident true else ok tt
  check_identifiers idents forbid

unfoldable pub validate_identifiers : Text → Bool → Result VersionError (Unit {0})
unfolding check_identifiers
validate_identifiers value forbid = check_identifiers (split b'.' value) forbid

-- The loop over the parts, with the number of those still to come.
unfoldable pub check_parts : ℕ → List Text → Result VersionError (Unit {0})
check_parts zero [] = ok tt
check_parts zero (part ∷ parts) = err not_three_parts
check_parts (suc n) [] = err not_three_parts
check_parts (suc n) (part ∷ parts) = validate_numeric_identifier part false >> check_parts n parts

unfoldable pub validate_core : Text → Result VersionError (Unit {0})
unfolding check_parts
validate_core core = check_parts 3 (split b'.' core)

-- The core, the prerelease and the build metadata.
unfoldable pub split_version : Text → Result VersionError (Text × Option Text × Option Text)
split_version version = do
  (core_and_pre, build) ← elim (split_once b'+' version) [
    | none ↦ ok (version, none)
    | some (left, right) ↦
        fail_if (is_empty right || has_char b'+' right) bad_build >> ok (left, some right)
  ]
  (core, prerelease) ← elim (split_once b'-' core_and_pre) [
    | none ↦ ok (core_and_pre, none)
    | some (left, right) ↦ fail_if (is_empty right) bad_prerelease >> ok (left, some right)
  ]
  ok (core, prerelease, build)

unfoldable pub validate_semver : Text → Result VersionError (Unit {0})
unfolding split_version validate_core validate_identifiers
validate_semver version = do
  (core, prerelease, build) ← split_version version
  validate_core core
  elim prerelease [ none ↦ ok tt | some p ↦ validate_identifiers p true ]
  elim build [ none ↦ ok tt | some b ↦ validate_identifiers b false ]

unfoldable pub normalize_release_tag : Text → Result VersionError Text
unfolding validate_semver strip_char
normalize_release_tag tag = do
  version ← ok_or (or_else (strip_char b'v' tag) (strip_char b'V' tag)) bad_prefix
  validate_semver version
  ok version

unfoldable pub runtime_version : Text → Bool → Text
runtime_version version dist_build = if dist_build then version ++ codes "-dist" else version

-- `str::split_inclusive` at a line feed: each piece but the last one ends with one, none is empty.
unfoldable pub split_inclusive : Text → List Text
split_inclusive [] = []
split_inclusive (c ∷ s) =
    let rest = split_inclusive s in
    if c == lf then (c ∷ []) ∷ rest else elim rest [ [] ↦ (c ∷ []) ∷ [] | p ∷ ps ↦ (c ∷ p) ∷ ps ]

-- `trim_end_matches(['\r', '\n'])`.
unfoldable pub trim_line_end : Text → Text
trim_line_end [] = []
trim_line_end (c ∷ s) =
    let rest = trim_line_end s in if is_empty rest && (c == cr || c == lf) then [] else c ∷ rest

-- Whether a line after this one stands in the table `[package]`.
unfoldable pub now_in_package : Bool → Text → Bool
unfolding trim_line_end
now_in_package in_package line =
    let section = trim (trim_line_end line) in
    if starts_with section (codes "[") && ends_with_char b']' section
    then text_eq section (codes "[package]")
    else in_package

abbrev pub version_line : Text → Text
version_line version = codes "version = \"" ++ version ++ codes "\"" ++ lf ∷ []

-- The loop over the lines, with `in_package` and `replaced`: their last value and the output.
unfoldable pub rewrite_lines : Text → Bool → Bool → List Text → Bool × Text
unfolding now_in_package
rewrite_lines version in_package replaced [] = (replaced, [])
rewrite_lines version in_package replaced (line ∷ lines) =
    let in_package' = now_in_package in_package line in
    let found =
      in_package' && not replaced && starts_with (trim_line_end line) (codes "version = ") in
    let (replaced', rest) = rewrite_lines version in_package' (found || replaced) lines in
    (replaced', (if found then version_line version else line) ++ rest)

unfoldable pub rewrite_manifest_version : Text → Text → Result VersionError Text
unfolding rewrite_lines split_inclusive
rewrite_manifest_version contents version = do
  let (replaced, output) = rewrite_lines version false false (split_inclusive contents)
  fail_if (not replaced) no_version_line
  ok output
