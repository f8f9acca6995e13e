-- ===== src/Ci/Diff.antt =====
-- `changed_paths` of .github/scripts/ci/select-checks.py: the strict reading of `git diff --raw -z`.
use terragrunt_demo.Common.{
  ℕ, zero, suc, ◌+◌, ◌-◌, ◌*◌, String, Bool, true, false, not, ◌&&◌, ◌||◌, Option, none, some, List,
  [], ◌∷◌, nat_eq, leb, ltb, if◌then◌else◌, all, any, codes, fits, times, is_hex, Result, ok, raise,
  Raised, ◌>>=◌, ◌>>◌,
}
use terragrunt_demo.Ci.FilePath.{Text, is, starts, is_one_of, same_text, split, suffix}

-- `raise Uncertain(reason)` unless a condition holds.
abbrev pub certain : Bool → String → Result (Unit {0})
certain true reason = ok tt
certain false reason = raise (Raised.uncertain reason)

abbrev pub or_uncertain {ℓ} : {A : Type ℓ} → Option A → String → Result A
or_uncertain none reason = raise (Raised.uncertain reason)
or_uncertain (some a) reason = ok a

-- What a UTF-8 decoder waits for: `more` bytes after the next one, which lies between two bounds,
-- and the bits so far.
pub data Pending : Type 0 where
  idle : Pending
  expect : (more low high bits : ℕ) → Pending

-- One byte, to the decoder's new state and the code point that it completes.
abbrev pub lead : ℕ → Option (Pending × Option ℕ)
lead b =
    if ltb b 0x80
    then some (idle, some b)
    else if leb 0xc2 b && leb b 0xdf
    then some (expect 0 0x80 0xbf (b - 0xc0), none)
    else if nat_eq b 0xe0
    then some (expect 1 0xa0 0xbf 0, none)
    else if nat_eq b 0xed
    then some (expect 1 0x80 0x9f 0xd, none)
    else if leb 0xe1 b && leb b 0xef
    then some (expect 1 0x80 0xbf (b - 0xe0), none)
    else if nat_eq b 0xf0
    then some (expect 2 0x90 0xbf 0, none)
    else if nat_eq b 0xf4
    then some (expect 2 0x80 0x8f 4, none)
    else if leb 0xf1 b && leb b 0xf3
    then some (expect 2 0x80 0xbf (b - 0xf0), none)
    else none

abbrev pub follow : ℕ → ℕ → Pending × Option ℕ
follow zero bits = (idle, some bits)
follow (suc more) bits = (expect more 0x80 0xbf bits, none)

abbrev pub feed : Pending → ℕ → Option (Pending × Option ℕ)
feed idle b = lead b
feed (expect more low high bits) b =
    if leb low b && leb b high then some (follow more (bits * 64 + (b - 0x80))) else none

abbrev pub emit : Option ℕ → Option Text → Option Text
emit c none = none
emit none (some s) = some s
emit (some c) (some s) = some (c ∷ s)

unfoldable pub decode_from : Pending → List ℕ → Option Text
decode_from idle [] = some []
decode_from (expect more low high bits) [] = none
decode_from p (b ∷ bs) = elim (feed p b) [ none ↦ none | some (p', c) ↦ emit c (decode_from p' bs) ]

abbrev pub or_unicode_error : Option Text → Result Text
or_unicode_error none = raise Raised.unicode_error
or_unicode_error (some s) = ok s

-- `raw.decode('utf-8')` and `raw.decode('ascii')`
unfoldable pub decode_utf8 : List ℕ → Result Text
decode_utf8 raw = or_unicode_error (decode_from idle raw)

unfoldable pub decode_ascii : List ℕ → Result Text
decode_ascii raw = if all (λ b. ltb b 0x80) raw then ok raw else raise Raised.unicode_error

-- The modes of a file in a raw diff.
pub data Mode : Type 0 where
  absent regular executable : Mode

abbrev pub mode_name : Mode → String
mode_name absent = "000000"
mode_name regular = "100644"
mode_name executable = "100755"

-- What follows a prefix.
abbrev pub after : Text → Text → Option Text
after [] s = some s
after (p ∷ ps) [] = none
after (p ∷ ps) (c ∷ s) = if nat_eq p c then after ps s else none

abbrev pub after_mode : Mode → Text → Option (Mode × Text)
after_mode m s = elim (after (codes (mode_name m)) s) [ none ↦ none | some rest ↦ some (m, rest) ]

-- The first alternative that matches.
abbrev pub or_else {ℓ} : {A : Type ℓ} → Option A → Option A → Option A
or_else none b = b
or_else (some a) b = some a

abbrev pub mode_at : Text → Option (Mode × Text)
mode_at s = or_else (after_mode absent s) (or_else (after_mode regular s) (after_mode executable s))

abbrev pub is_letter : ℕ → Bool
is_letter c = nat_eq c b'A' || nat_eq c b'M' || nat_eq c b'D'

-- ` [0-9a-f]{40} [0-9a-f]{40} ([AMD])`
abbrev pub is_tail : Text → Bool
is_tail =
    fits
      (nat_eq b' ' ∷ times 40 is_hex (nat_eq b' ' ∷ times 40 is_hex (nat_eq b' ' ∷ is_letter ∷ [])))

-- `:(mode) (mode) [0-9a-f]{40} [0-9a-f]{40} ([AMD])`
unfoldable pub parse_record : Text → Option (Mode × Mode)
parse_record s = elim (after (codes ":") s) [
  | none ↦ none
  | some s1 ↦ elim (mode_at s1) [
    | none ↦ none
    | some (before, s2) ↦ elim (after (codes " ") s2) [
      | none ↦ none
      | some s3 ↦ elim (mode_at s3) [
        | none ↦ none
        | some (now, s4) ↦ if is_tail s4 then some (before, now) else none
      ]
    ]
  ]
]

abbrev pub is_control : ℕ → Bool
is_control c = nat_eq c b'\\' || nat_eq c 10 || nat_eq c 13 || nat_eq c 9

-- The condition under which a path is refused.
unfoldable pub is_uncertain_path : Text → Bool
is_uncertain_path path =
    is path ""
    || starts path "/"
    || any is_control path
    || any (λ part. is part "..") (split b'/' path)

abbrev pub is_absent : Mode → Bool
is_absent absent = true
is_absent _ = false

abbrev pub is_executable : Mode → Bool
is_executable executable = true
is_executable _ = false

-- The condition under which the modes of a path are refused: both are present and differ, or one is
-- executable and the file is a document.
unfoldable pub is_uncertain_mode : Mode → Mode → Text → Bool
is_uncertain_mode before now path =
    not (same_text (codes (mode_name before)) (codes (mode_name now)))
      && not (is_absent before || is_absent now)
    || (is_executable before || is_executable now) && is_one_of (suffix path) (".md" ∷ ".png" ∷ [])

-- One record and its path.
unfoldable pub changed_path : List ℕ → List ℕ → Result Text
changed_path raw_record raw_path = do
  found ← decode_ascii raw_record
  modes ← or_uncertain (parse_record found) "uncertain-file-type"
  path ← decode_utf8 raw_path
  certain (not (is_uncertain_path path)) "uncertain-path"
  certain (not (is_uncertain_mode modes.0 modes.1 path)) "uncertain-file-mode"
  ok path

abbrev pub with_pair :
    List ℕ → List ℕ → Option (List (List ℕ × List ℕ)) → Option (List (List ℕ × List ℕ))
with_pair r p none = none
with_pair r p (some pairs) = some ((r, p) ∷ pairs)

-- The fields in pairs, with an empty one at the end.
unfoldable pub pairs_of : List (List ℕ) → Option (List (List ℕ × List ℕ))
pairs_of [] = none
pairs_of ([] ∷ []) = some []
pairs_of ((c ∷ s) ∷ []) = none
pairs_of (r ∷ p ∷ rest) = with_pair r p (pairs_of rest)

unfoldable pub paths_of : List (List ℕ × List ℕ) → Result (List Text)
paths_of [] = ok []
paths_of ((r, p) ∷ rest) = do path ← changed_path r p; paths ← paths_of rest; ok (path ∷ paths)

unfoldable pub changed_paths : List ℕ → Result (List Text)
changed_paths raw = do
  pairs ← or_uncertain (pairs_of (split 0 raw)) "malformed-diff"
  paths_of pairs
