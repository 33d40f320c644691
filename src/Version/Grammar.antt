-- ===== src/Version/Grammar.antt =====
-- The texts that src/version_support.rs accepts, and what it writes into a manifest.
use central_ssh.Prelude.{
  ℕ, ◌≡◌, ◌↔◌, ◌⊎◌, refl, ap, inl, inr, Bool, true, false, ◌&&◌, Option, none, some, List, [], ◌∷◌,
  ◌++◌, ok, Result-cases, Bool-cases, Option-cases, all, any, is_empty, ltb, ◌==◌, arith, ◌||◌,
  if◌then◌else◌,
}
use central_ssh.Prelude.Text.{
  Text, codes, len, starts_with, has_char, split, split_once, is_ascii_digit, join, append_nil,
  append_assoc, trim, ends_with_char, text_eq,
}
use central_ssh.Version.Tag.{
  strip_char, validate_numeric_identifier, check_parts, validate_core, split_version,
  validate_semver, normalize_release_tag, split_inclusive, trim_line_end, now_in_package,
  version_line, rewrite_lines, rewrite_manifest_version,
}

-- A number in decimal without leading zeros.
abbrev pub IsNumber : Text → Type 0
IsNumber t =
    (is_empty t ≡ false)
    × (all is_ascii_digit t ≡ true)
    × ((ltb 1 (len t) && starts_with t (codes "0")) ≡ false)

IsNumber-iff : (t : Text) → (validate_numeric_identifier t false ≡ ok tt) ↔ IsNumber t
unfolding validate_numeric_identifier
IsNumber-iff t = ground arith

join-cons_head : (d c : ℕ) (p : Text) (ps : List Text) → join d ((c ∷ p) ∷ ps) ≡ c ∷ join d (p ∷ ps)
join-cons_head d c p [] = refl
join-cons_head d c p (q ∷ ps) = refl

split-cases : (d : ℕ) (s : Text) → (p : Text) × (ps : List Text) × (split d s ≡ p ∷ ps)
unfolding split
split-cases d [] = ([], [], refl)
split-cases d (c ∷ s) = elim (Bool-cases (c == d)) [
  | inl same ↦ ([], split d s, ground (arith, same))
  | inr other ↦ let (p, ps, e) = split-cases d s in (c ∷ p, ps, rw (other, split, e) refl)
]

join-split : (d : ℕ) (s : Text) → join d (split d s) ≡ s
unfolding split
join-split d [] = refl
join-split d (c ∷ s) =
    let (p, ps, e) = split-cases d s in
    elim (Bool-cases (c == d)) [
      | inl same ↦ ground (arith, same, e, join-split d s, ap (join d) e)
      | inr other ↦ ground (arith, other, e, join-split d s, join-cons_head d c p ps, ap (join d) e)
    ]

digits_no_dot : (t : Text) → all is_ascii_digit t ≡ true → has_char b'.' t ≡ false
unfolding has_char
digits_no_dot [] h = refl
digits_no_dot (c ∷ t) h = ground (arith, digits_no_dot t)

split_piece : (d : ℕ) (t s : Text) → has_char d t ≡ false → split d (t ++ d ∷ s) ≡ t ∷ split d s
unfolding split has_char
split_piece d [] s h = ground arith
split_piece d (c ∷ t) s h = ground (arith, split_piece d t s)

split_last : (d : ℕ) (t : Text) → has_char d t ≡ false → split d t ≡ t ∷ []
unfolding split has_char
split_last d [] h = refl
split_last d (c ∷ t) h = ground (arith, split_last d t)

three_parts :
    (ps : List Text)
    → check_parts 3 ps ≡ ok tt
    → (a : Text) × (b : Text) × (c : Text) × (ps ≡ a ∷ b ∷ c ∷ [])
      × IsNumber a
      × IsNumber b
      × IsNumber c
unfolding check_parts
three_parts [] h = absurd (ground arith)
three_parts (a ∷ []) h = absurd (ground arith)
three_parts (a ∷ b ∷ []) h = absurd (ground arith)
three_parts (a ∷ b ∷ c ∷ []) h = (
  a,
  b,
  c,
  refl,
  (IsNumber-iff a).0 (ground arith),
  (IsNumber-iff b).0 (ground arith),
  (IsNumber-iff c).0 (ground arith),
)
three_parts (a ∷ b ∷ c ∷ d ∷ ps) h = absurd (ground arith)

-- A version core is accepted exactly when it is three numbers without leading zeros, with dots
-- between them.
pub validate_core_iff :
    (core : Text)
    → (validate_core core ≡ ok tt) ↔ (
        (a : Text) × (b : Text) × (c : Text) × (core ≡ a ++ b'.' ∷ (b ++ b'.' ∷ c))
        × IsNumber a
        × IsNumber b
        × IsNumber c)
unfolding validate_core check_parts
validate_core_iff core = (
  λ h.
      let (a, b, c, e, x, y, z) = three_parts (split b'.' core) h in
      (a, b, c, ground (arith, join-split b'.' core, ap (join b'.') e), x, y, z),
  λ h.
      let (a, b, c, e, x, y, z) = h in
      rw
        (
          e,
          split_piece b'.' a (b ++ b'.' ∷ c) (digits_no_dot a x.1),
          split_piece b'.' b c (digits_no_dot b y.1),
          split_last b'.' c (digits_no_dot c z.1),
          (IsNumber-iff a).1 x,
          (IsNumber-iff b).1 y,
          (IsNumber-iff c).1 z,
        )
        refl,
)

-- A tag is accepted exactly when it is a v, small or large, before a semantic version, which is
-- what is returned.
pub normalize_release_tag_iff :
    (tag version : Text)
    → (normalize_release_tag tag ≡ ok version)
      ↔ (((tag ≡ b'v' ∷ version) ⊎ (tag ≡ b'V' ∷ version)) × (validate_semver version ≡ ok tt))
unfolding normalize_release_tag strip_char
normalize_release_tag_iff [] version = ground arith
normalize_release_tag_iff (c ∷ tag) version = elim (Result-cases (validate_semver tag)) [
  | inl (u, valid) ↦ ground (arith, valid, ap validate_semver)
  | inr (e, bad) ↦ ground (arith, bad, ap validate_semver)
]

split_once_sound :
    (d : ℕ) (s : Text) {l r : Text}
    → split_once d s ≡ some (l, r)
    → (s ≡ l ++ d ∷ r) × (has_char d l ≡ false)
unfolding split_once has_char
split_once_sound d [] h = cc
split_once_sound d (c ∷ s) {l} {r} h = elim (Bool-cases (c == d)) [
  | inl same ↦ ground (arith, same)
  | inr other ↦ elim (Option-cases (split_once d s)) [
    | inl absent ↦ absurd (ground (arith, other, absent))
    | inr ((l', r'), found) ↦ ground (arith, other, found, split_once_sound d s found)
  ]
]

-- What stands behind a separator, if anything does.
abbrev pub after : ℕ → Option Text → Text
after d none = []
after d (some t) = d ∷ t

-- A version that splits is its core, its prerelease behind a hyphen and its build metadata behind
-- a plus, each if there is one.
pub split_version_sound :
    (version core : Text) (prerelease build : Option Text)
    → split_version version ≡ ok (core, prerelease, build)
    → version ≡ (core ++ after b'-' prerelease) ++ after b'+' build
unfolding split_version
split_version_sound version core prerelease build h =
    elim (Option-cases (split_once b'+' version)) [
      | inl plain ↦ elim (Option-cases (split_once b'-' version)) [
        | inl bare ↦ ground (arith, plain, bare, append_nil (version ++ []), append_nil version)
        | inr ((l, r), found) ↦
            ground
              (arith, plain, found, split_once_sound b'-' version found, append_nil (l ++ b'-' ∷ r))
      ]
      | inr ((left, right), plus) ↦ elim (Option-cases (split_once b'-' left)) [
        | inl bare ↦ ground (arith, plus, bare, split_once_sound b'+' version plus, append_nil left)
        | inr ((l, r), found) ↦ ground (
          arith,
          plus,
          found,
          split_once_sound b'+' version plus,
          split_once_sound b'-' left found,
        )
      ]
    ]

-- The pieces one after another.
abbrev pub concat : List Text → Text
concat [] = []
concat (p ∷ ps) = p ++ concat ps

-- The lines of a text, one after another, are the text.
concat-split_inclusive : (s : Text) → concat (split_inclusive s) ≡ s
unfolding split_inclusive
concat-split_inclusive [] = refl
concat-split_inclusive (c ∷ s) = ground (arith, concat-split_inclusive s)

rewritten_rest :
    (version : Text) (in_package : Bool) (lines : List Text)
    → rewrite_lines version in_package true lines ≡ (true, concat lines)
unfolding rewrite_lines
rewritten_rest version in_package [] = refl
rewritten_rest version in_package (line ∷ lines) =
    ground (arith, rewritten_rest version (now_in_package in_package line) lines)

-- Whether a line is the head of a table, that of the table `[package]`, or a version.
abbrev pub is_header : Text → Bool
is_header line =
    let section = trim (trim_line_end line) in
    starts_with section (codes "[") && ends_with_char b']' section

abbrev pub is_package_header : Text → Bool
is_package_header line = text_eq (trim (trim_line_end line)) (codes "[package]")

abbrev pub is_version_line : Text → Bool
is_version_line line = starts_with (trim_line_end line) (codes "version = ")

-- The last of the lines stands in `[package]`: the last head of a table among them is its head.
pub record IsInPackage (lines : List Text) : Type 0 where
  pub head : List Text
  pub header : Text
  pub table : List Text
  pub split_there : lines ≡ head ++ header ∷ table
  pub of_package : is_package_header header ≡ true
  pub of_no_other : any is_header table ≡ false

-- Whether a version stands in `[package]` among the lines, which begin there or do not.
abbrev pub has_version : Bool → List Text → Bool
has_version in_package [] = false
has_version in_package (line ∷ lines) =
    let within = if is_header line then is_package_header line else in_package in
    within && is_version_line line || has_version within lines

-- What the loop over the lines did, if it replaced one.
record Replaced (version : Text) (in_package : Bool) (lines : List Text) (output : Text)
    : Type 0 where
  before : List Text
  line : Text
  behind : List Text
  here : lines ≡ before ++ line ∷ behind
  standing :
      ((in_package ≡ true) × (any is_header (before ++ line ∷ []) ≡ false))
      ⊎ IsInPackage (before ++ line ∷ [])
  names : is_version_line line ≡ true
  first : has_version in_package before ≡ false
  written : output ≡ concat before ++ (version_line version ++ concat behind)

-- A line before lines that stand in `[package]`.
package-cons :
    (in_package : Bool) (line : Text) (lines : List Text)
    → ((now_in_package in_package line ≡ true) × (any is_header lines ≡ false)) ⊎ IsInPackage lines
    → ((in_package ≡ true) × (any is_header (line ∷ lines) ≡ false)) ⊎ IsInPackage (line ∷ lines)
unfolding now_in_package
package-cons in_package line lines (inr r) = inr (record {
  head = line ∷ r.head;
  header = r.header;
  table = r.table;
  split_there = ap (λ ls. line ∷ ls) r.split_there;
  of_package = r.of_package;
  of_no_other = r.of_no_other;
})
package-cons in_package line lines (inl (within, none_)) = elim (Bool-cases (is_header line)) [
  | inl head ↦ inr (record {
    head = [];
    header = line;
    table = lines;
    split_there = refl;
    of_package = ground (arith, head, within);
    of_no_other = none_;
  })
  | inr other ↦ inl (ground (arith, other, within), ground (arith, other, none_))
]

rewrite_lines_sound :
    (version : Text) (in_package : Bool) (lines : List Text)
    → (rewrite_lines version in_package false lines).0 ≡ true
    → Replaced version in_package lines (rewrite_lines version in_package false lines).1
unfolding rewrite_lines
rewrite_lines_sound version in_package [] h = absurd (ground arith)
rewrite_lines_sound version in_package (line ∷ lines) h =
    let within = now_in_package in_package line in
    elim (Bool-cases (within && is_version_line line)) [
      | inl found ↦ record {
        before = [];
        line = line;
        behind = lines;
        here = refl;
        standing = package-cons in_package line [] (inl (ground arith, refl));
        names = ground arith;
        first = refl;
        written = ground (arith, found, rewritten_rest version within lines);
      }
      | inr other ↦
          let r = rewrite_lines_sound version within lines (ground (arith, other)) in
          record {
            before = line ∷ r.before;
            line = r.line;
            behind = r.behind;
            here = ap (λ ls. line ∷ ls) r.here;
            standing = package-cons in_package line (r.before ++ r.line ∷ []) r.standing;
            names = r.names;
            first = ground (arith, other, r.first, now_in_package);
            written = ground (
              arith,
              other,
              r.written,
              append_assoc line (concat r.before) (version_line version ++ concat r.behind),
            );
          }
    ]

-- A manifest that is rewritten keeps all its lines but one, and the line with the new version
-- stands in the place of that one, which is the first line of the table `[package]` that begins
-- with `version = `.
pub rewrite_manifest_version_sound :
    (contents version output : Text)
    → rewrite_manifest_version contents version ≡ ok output
    → (before : List Text) × (line : Text) × (behind : List Text) × (split_inclusive contents
        ≡ before ++ line ∷ behind)
      × (concat (split_inclusive contents) ≡ contents)
      × IsInPackage (before ++ line ∷ [])
      × (is_version_line line ≡ true)
      × (has_version false before ≡ false)
      × (output ≡ concat before ++ (version_line version ++ concat behind))
unfolding rewrite_manifest_version
rewrite_manifest_version_sound contents version output h =
    let r = rewrite_lines_sound version false (split_inclusive contents) (ground arith) in
    (
      r.before,
      r.line,
      r.behind,
      r.here,
      concat-split_inclusive contents,
      elim r.standing [ inl (never, _) ↦ absurd (ground (arith, never)) | inr there ↦ there ],
      r.names,
      r.first,
      ground (arith, r.written),
    )
