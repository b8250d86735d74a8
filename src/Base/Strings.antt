-- ===== src/Base/Strings.antt =====
-- The functions of Go's package strings that the program calls, over the characters of a text.
use Prim.Native.Nat.{ℕ}
use Prim.Native.Char.{Char, code}
use Prim.Native.String.{String}
use mathlib.Core.Bool.{Bool, false, ◌&&◌, ◌||◌}
use mathlib.Core.Option.{Option, none, some}
use mathlib.Core.List.{List, [], ◌∷◌}
use karpenter_provider_huawe.Base.Tests.{leb, eqb, if◌then◌else◌}

-- unicode.IsSpace
abbrev pub is_space : ℕ → Bool
is_space c =
    (leb 9 c && leb c 13)
    || eqb c 0x20
    || eqb c 0x85
    || eqb c 0xa0
    || eqb c 0x1680
    || (leb 0x2000 c && leb c 0x200a)
    || eqb c 0x2028
    || eqb c 0x2029
    || eqb c 0x202f
    || eqb c 0x205f
    || eqb c 0x3000

trim_left : String → String
trim_left String.[] = String.[]
trim_left (String.◌∷◌ c s) = if is_space (code c) then trim_left s else String.◌∷◌ c s

abbrev cons_trimmed : Char → String → String
cons_trimmed c String.[] = if is_space (code c) then String.[] else String.◌∷◌ c String.[]
cons_trimmed c (String.◌∷◌ d s) = String.◌∷◌ c (String.◌∷◌ d s)

trim_right : String → String
trim_right String.[] = String.[]
trim_right (String.◌∷◌ c s) = cons_trimmed c (trim_right s)

-- strings.TrimSpace
unfoldable pub trim_space : String → String
unfolding trim_left trim_right
trim_space s = trim_right (trim_left s)

-- s[len(p):], if p is a prefix of s.
unfoldable pub strip_prefix : String → String → Option String
strip_prefix String.[] s = some s
strip_prefix (String.◌∷◌ c p) String.[] = none
strip_prefix (String.◌∷◌ c p) (String.◌∷◌ d s) =
    let rest = strip_prefix p s in if eqb (code c) (code d) then rest else none

-- s[i + len(p):] and s[i:], for i = strings.Index(s, p).
unfoldable pub after_first : String → String → Option String
unfolding strip_prefix
after_first p String.[] = strip_prefix p String.[]
after_first p (String.◌∷◌ c s) = elim (strip_prefix p (String.◌∷◌ c s)) [
  | some rest ↦ some rest
  | none ↦ after_first p s
]

unfoldable pub from_first : String → String → Option String
unfolding strip_prefix
from_first p String.[] = elim (strip_prefix p String.[]) [
  | some rest ↦ some String.[]
  | none ↦ none
]
from_first p (String.◌∷◌ c s) = elim (strip_prefix p (String.◌∷◌ c s)) [
  | some rest ↦ some (String.◌∷◌ c s)
  | none ↦ from_first p s
]

-- s up to the first character of a set, or all of s.
unfoldable pub before_any : (ℕ → Bool) → String → String
before_any p String.[] = String.[]
before_any p (String.◌∷◌ c s) =
    let rest = before_any p s in if p (code c) then String.[] else String.◌∷◌ c rest

-- s[:i] and s[:i + 1], for i = strings.LastIndex(s, c) of one character.
unfoldable pub before_last : ℕ → String → Option String
before_last c String.[] = none
before_last c (String.◌∷◌ d s) = elim (before_last c s) [
  | some front ↦ some (String.◌∷◌ d front)
  | none ↦ if eqb (code d) c then some String.[] else none
]

unfoldable pub up_to_last : ℕ → String → Option String
up_to_last c String.[] = none
up_to_last c (String.◌∷◌ d s) = elim (up_to_last c s) [
  | some front ↦ some (String.◌∷◌ d front)
  | none ↦ if eqb (code d) c then some (String.◌∷◌ d String.[]) else none
]

abbrev onto_first : Char → List String → List String
onto_first c [] = String.◌∷◌ c String.[] ∷ []
onto_first c (part ∷ parts) = String.◌∷◌ c part ∷ parts

-- strings.Split(s, c) of one character.
unfoldable pub split_on : ℕ → String → List String
split_on c String.[] = String.[] ∷ []
split_on c (String.◌∷◌ d s) =
    let parts = split_on c s in if eqb (code d) c then String.[] ∷ parts else onto_first d parts

-- strings.TrimSuffix(s, c) of one character: only the last character is looked at.
unfoldable pub trim_suffix : ℕ → String → String
trim_suffix c String.[] = String.[]
trim_suffix c (String.◌∷◌ d String.[]) =
    if eqb (code d) c then String.[] else String.◌∷◌ d String.[]
trim_suffix c (String.◌∷◌ d (String.◌∷◌ e s)) = String.◌∷◌ d (trim_suffix c (String.◌∷◌ e s))

abbrev cons_unless : ℕ → Char → String → String
cons_unless c d String.[] = if eqb (code d) c then String.[] else String.◌∷◌ d String.[]
cons_unless c d (String.◌∷◌ e s) = String.◌∷◌ d (String.◌∷◌ e s)

trim_left_of : ℕ → String → String
trim_left_of c String.[] = String.[]
trim_left_of c (String.◌∷◌ d s) =
    let rest = trim_left_of c s in if eqb (code d) c then rest else String.◌∷◌ d s

trim_right_of : ℕ → String → String
trim_right_of c String.[] = String.[]
trim_right_of c (String.◌∷◌ d s) = cons_unless c d (trim_right_of c s)

-- strings.Trim(s, c) of one character.
unfoldable pub trim : ℕ → String → String
unfolding trim_left_of trim_right_of
trim c s = trim_right_of c (trim_left_of c s)

-- strings.HasSuffix(s, c) of one character.
unfoldable pub has_suffix : ℕ → String → Bool
has_suffix c String.[] = false
has_suffix c (String.◌∷◌ d String.[]) = eqb (code d) c
has_suffix c (String.◌∷◌ d (String.◌∷◌ e s)) = has_suffix c (String.◌∷◌ e s)
