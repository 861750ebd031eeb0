-- ===== src/Shared/Texts.antt =====
-- Python's `strip` and the cuts at a dash, on texts read character by character.
use Prim.Native.Char.{Char, code}
use Prim.Native.Nat.{◌-◌}
use Prim.Native.String.{String, char_at}
use mathlib.Core.Bool.{Bool, true, false, ◌||◌}
use mathlib.Core.Option.{Option, none, some}
use movie_api.Shared.Tests.{◌==◌, leb, if◌then◌else◌}

-- The white space of ASCII.
abbrev is_space : Char → Bool
is_space c = code c == b' ' || (if leb 9 (code c) then leb (code c) 13 else false)

-- `s.lstrip()`
unfoldable pub lstrip : String → String
lstrip String.[] = String.[]
lstrip (String.◌∷◌ c s) = let rest = lstrip s in if is_space c then rest else String.◌∷◌ c s

-- `s.rstrip()`
unfoldable pub rstrip : String → String
rstrip String.[] = String.[]
rstrip (String.◌∷◌ c s) = elim (rstrip s) [
  | String.[] ↦ if is_space c then String.[] else String.◌∷◌ c String.[]
  | String.◌∷◌ d r ↦ String.◌∷◌ c (String.◌∷◌ d r)
]

unfoldable pub strip : String → String
unfolding lstrip rstrip
strip s = rstrip (lstrip s)

-- `s.rsplit("-", 1)[0]` where `s` has a dash
unfoldable pub before_last_dash : String → Option String
before_last_dash String.[] = none
before_last_dash (String.◌∷◌ c s) = elim (before_last_dash s) [
  | some p ↦ some (String.◌∷◌ c p)
  | none ↦ if code c == b'-' then some String.[] else none
]

-- `s[4:]` where `s` starts with "sub-"
unfoldable pub after_sub : String → Option String
after_sub (String.◌∷◌ a (String.◌∷◌ b (String.◌∷◌ c (String.◌∷◌ d rest)))) =
    if code a == b's'
    then if code b == b'u'
      then if code c == b'b' then if code d == b'-' then some rest else none else none
      else none
    else none
after_sub _ = none

-- Texts are changed here in their ASCII letters only.
abbrev lower_char : Char → Char
lower_char c =
    if leb b'A' (code c)
    then if leb (code c) b'Z' then char_at "abcdefghijklmnopqrstuvwxyz" (code c - b'A') else c
    else c

abbrev upper_char : Char → Char
upper_char c =
    if leb b'a' (code c)
    then if leb (code c) b'z' then char_at "ABCDEFGHIJKLMNOPQRSTUVWXYZ" (code c - b'a') else c
    else c

-- `s.lower()`
unfoldable pub lower : String → String
lower String.[] = String.[]
lower (String.◌∷◌ c s) = String.◌∷◌ (lower_char c) (lower s)

-- `s.upper()`
unfoldable pub upper : String → String
upper String.[] = String.[]
upper (String.◌∷◌ c s) = String.◌∷◌ (upper_char c) (upper s)

-- `s.replace("-", "")`
unfoldable pub without_dashes : String → String
without_dashes String.[] = String.[]
without_dashes (String.◌∷◌ c s) =
    let rest = without_dashes s in if code c == b'-' then rest else String.◌∷◌ c rest

-- `s.replace(":", "-")`
unfoldable pub colons_dashed : String → String
colons_dashed String.[] = String.[]
colons_dashed (String.◌∷◌ c s) = String.◌∷◌ (if code c == b':' then "-" else c) (colons_dashed s)

-- words after a first one: `owed` says that a space goes before the next character
rest_words : Bool → String → String
rest_words owed String.[] = String.[]
rest_words owed (String.◌∷◌ c s) =
    let after_space = rest_words true s in
    let after_char = rest_words false s in
    if is_space c
    then after_space
    else if owed
    then String.◌∷◌ " " (String.◌∷◌ c after_char)
    else String.◌∷◌ c after_char

-- `" ".join(s.strip().split())`
unfoldable pub squeezed : String → String
unfolding lstrip rest_words
squeezed s = rest_words false (lstrip s)

-- `s.split("@", 1)[0]`
unfoldable pub before_at : String → String
before_at String.[] = String.[]
before_at (String.◌∷◌ c s) =
    let rest = before_at s in if code c == b'@' then String.[] else String.◌∷◌ c rest
