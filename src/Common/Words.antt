-- ===== src/Common/Words.antt =====
-- Python's text operations that the sources use, on the code points of a text.
use Prim.Native.Nat.{ℕ, zero, suc, ◌+◌}
use Prim.Native.Char.{code}
use Prim.Native.String.{String}
use mathlib.Core.Bool.{Bool, true, false, not, ◌&&◌, ◌||◌}
use mathlib.Core.List.{List, [], ◌∷◌, reverse, map}
use package.terragrunt_demo.Common.Tests.{leb, nat_eq, if◌then◌else◌}

abbrev pub codes : String → List ℕ
codes String.[] = []
codes (String.◌∷◌ c s) = code c ∷ codes s

abbrev pub begins : List ℕ → List ℕ → Bool
begins [] s = true
begins (p ∷ ps) [] = false
begins (p ∷ ps) (c ∷ s) = nat_eq p c && begins ps s

-- `s.startswith(p)`
unfoldable pub startswith : String → String → Bool
startswith s p = begins (codes p) (codes s)

-- `s.endswith(p)`
unfoldable pub endswith : String → String → Bool
endswith s p = begins (reverse (codes p)) (reverse (codes s))

abbrev pub within : List ℕ → List ℕ → Bool
within p [] = begins p []
within p (c ∷ s) = begins p (c ∷ s) || within p s

-- `p in s`
unfoldable pub contains : String → String → Bool
contains p s = within (codes p) (codes s)

abbrev pub is_digit : ℕ → Bool
is_digit c = leb b'0' c && leb c b'9'

-- `[0-9a-f]`
abbrev pub is_hex : ℕ → Bool
is_hex c = is_digit c || (leb b'a' c && leb c b'f')

-- A pattern of `re.fullmatch` that is a sequence of character classes.
abbrev pub fits : List (ℕ → Bool) → List ℕ → Bool
fits [] [] = true
fits [] (c ∷ s) = false
fits (p ∷ ps) [] = false
fits (p ∷ ps) (c ∷ s) = p c && fits ps s

-- `c{n}` in a pattern.
abbrev pub times : ℕ → (ℕ → Bool) → List (ℕ → Bool) → List (ℕ → Bool)
times zero c rest = rest
times (suc n) c rest = c ∷ times n c rest

abbrev pub dash : ℕ → Bool
dash = nat_eq b'-'

-- `[0-9a-f]{64}`, a SHA-256 digest in hexadecimal
unfoldable pub is_sha256 : String → Bool
is_sha256 s = fits (times 64 is_hex []) (codes s)

-- `[0-9a-f]{40}`, a commit
unfoldable pub is_commit : String → Bool
is_commit s = fits (times 40 is_hex []) (codes s)

-- `c.lower()` of a code point that is ASCII
abbrev pub lower : ℕ → ℕ
lower c = if leb b'A' c && leb c b'Z' then c + 32 else c

-- `s.lower() == name`, for a name in lower case
unfoldable pub lowers_to : String → String → Bool
lowers_to s name = fits (map nat_eq (codes name)) (map lower (codes s))

-- Python's white space, as `str.strip` reads it
abbrev pub is_space : ℕ → Bool
is_space c =
    leb 9 c && leb c 13
    || leb 28 c && leb c 32
    || nat_eq c 0x85
    || nat_eq c 0xa0
    || nat_eq c 0x1680
    || leb 0x2000 c && leb c 0x200a
    || leb 0x2028 c && leb c 0x2029
    || nat_eq c 0x202f
    || nat_eq c 0x205f
    || nat_eq c 0x3000

abbrev pub starts_bare : List ℕ → Bool
starts_bare [] = true
starts_bare (c ∷ s) = not (is_space c)

-- `s.strip() == s`
unfoldable pub is_stripped : String → Bool
is_stripped s = starts_bare (codes s) && starts_bare (reverse (codes s))
