-- ===== src/Ci/FilePath.antt =====
-- Repository paths in .github/scripts/ci/select-checks.py, as code points, with the two parts of
-- `pathlib.Path` that it uses.
use terragrunt_demo.Common.{
  ℕ, String, Bool, true, false, ◌&&◌, ◌||◌, List, [], ◌∷◌, nat_eq, if◌then◌else◌, codes, begins,
  Option, none, some, any,
}
use mathlib.Core.List.{reverse}

abbrev pub Text : Type 0
Text = List ℕ

-- `a == b`
abbrev pub same_text : Text → Text → Bool
same_text [] [] = true
same_text [] (d ∷ t) = false
same_text (c ∷ s) [] = false
same_text (c ∷ s) (d ∷ t) = nat_eq c d && same_text s t

-- `s == name` and `s.startswith(name)`, for a literal, and `s in names`
abbrev pub is : Text → String → Bool
is s name = same_text s (codes name)

abbrev pub starts : Text → String → Bool
starts s name = begins (codes name) s

abbrev pub ends : Text → String → Bool
ends s name = begins (reverse (codes name)) (reverse s)

abbrev pub is_one_of : Text → List String → Bool
is_one_of s names = any (is s) names

-- `s.split(c)`: the first part, and the others.
abbrev pub glue : ℕ → ℕ → List Text → List Text
glue c d [] = [] ∷ []
glue c d (part ∷ parts) = if nat_eq c d then [] ∷ part ∷ parts else (d ∷ part) ∷ parts

unfoldable pub split : ℕ → Text → List Text
split c [] = [] ∷ []
split c (d ∷ s) = glue c d (split c s)

-- The last part of a path that is not empty and not `.`.
abbrev pub last_name : List Text → Text → Text
last_name [] found = found
last_name (part ∷ parts) found = last_name parts (if is part "" || is part "." then found else part)

-- `Path(path).name`
unfoldable pub name : Text → Text
name path = last_name (split b'/' path) []

-- From the last dot of a reversed name on, `none` if it has none.
abbrev pub from_dot : Text → Text → Option (Text × Text)
from_dot found [] = none
from_dot found (c ∷ s) = if nat_eq c b'.' then some (c ∷ found, s) else from_dot (c ∷ found) s

-- `Path(path).suffix`: a dot at either end of the name makes no suffix.
abbrev pub suffix_of : Option (Text × Text) → Text
suffix_of none = []
suffix_of (some (dot, [])) = []
suffix_of (some ([], c ∷ before)) = []
suffix_of (some (d ∷ [], c ∷ before)) = []
suffix_of (some (d ∷ e ∷ rest, c ∷ before)) = d ∷ e ∷ rest

unfoldable pub suffix : Text → Text
suffix path = suffix_of (from_dot [] (reverse (name path)))
