-- ===== src/Prelude/Text.antt =====
-- Go's functions on strings that the program uses.
use Prim.Native.Nat.{ℕ, zero, suc, ◌+◌, ◌*◌, ◌-◌}
use Prim.Native.String.{String, count, ◌++◌ as join_text}
use Prim.Native.Char.{Char, code}
use mathlib.Core.Bool.{Bool, true, false, ◌&&◌, ◌||◌}
use mathlib.Core.Option.{Option, none, some}
use mathlib.Core.List.{List, [], ◌∷◌}
use text.Mathlib.Text.{starts_with}
use ekco.Prelude.Tests.{eqb, leb, if◌then◌else◌}
use ekco.Prelude.Int.{ℤ, pos, minus}

-- `strings.Contains(s, part)`
unfoldable pub contains_text : String → String → Bool
contains_text String.[] part = starts_with String.[] part
contains_text (String.◌∷◌ c s) part = starts_with (String.◌∷◌ c s) part || contains_text s part

-- What is left to skip of the occurrence that was replaced.
replace_from : ℕ → String → String → String → String
replace_from skip old new String.[] = String.[]
replace_from (suc skip) old new (String.◌∷◌ c s) = replace_from skip old new s
replace_from zero old new (String.◌∷◌ c s) = elim (starts_with (String.◌∷◌ c s) old) [
  | true ↦ join_text new (replace_from (count old - 1) old new s)
  | false ↦ String.◌∷◌ c (replace_from 0 old new s)
]

-- `strings.ReplaceAll(s, old, new)` of an `old` that is not empty
unfoldable pub replace_all : String → String → String → String
unfolding replace_from
replace_all s old new = replace_from 0 old new s

-- Whether the rest of the line is being left out.
replace_lines_from : Bool → String → String → String → String
replace_lines_from skipping start new String.[] = String.[]
replace_lines_from true start new (String.◌∷◌ c s) = elim (eqb (code c) b'\n') [
  | true ↦ String.◌∷◌ c (replace_lines_from false start new s)
  | false ↦ replace_lines_from true start new s
]
replace_lines_from false start new (String.◌∷◌ c s) = elim (starts_with (String.◌∷◌ c s) start) [
  | true ↦ join_text new (replace_lines_from true start new s)
  | false ↦ String.◌∷◌ c (replace_lines_from false start new s)
]

-- `ReplaceAllString(s, new)` of the pattern that is the text `start` and `.*`, for a `new` without `$`
unfoldable pub replace_lines : String → String → String → String
unfolding replace_lines_from
replace_lines s start new = replace_lines_from false start new s

-- `strings.Join(texts, separator)`
abbrev pub join_all : List String → String → String
join_all [] separator = ""
join_all (s ∷ []) separator = s
join_all (s ∷ t ∷ texts) separator =
    join_text s (join_text separator (join_all (t ∷ texts) separator))

-- The value of decimal digits after `n`, or `none` if there is another character.
unfoldable pub digits_from : ℕ → String → Option ℕ
digits_from n String.[] = some n
digits_from n (String.◌∷◌ c s) =
    let rest = digits_from (10 * n + (code c - b'0')) s in
    if leb b'0' (code c) && leb (code c) b'9' then rest else none

abbrev digits : String → Option ℕ
digits String.[] = none
digits (String.◌∷◌ c s) = digits_from 0 (String.◌∷◌ c s)

abbrev signed : ℕ → (ℕ → ℤ) → Option ℕ → Option ℤ
signed bound sign none = none
signed bound sign (some n) = if leb n bound then some (sign n) else none

-- `strconv.ParseInt(s, 10, 32)`, with `none` for an error
unfoldable pub parse_int32 : String → Option ℤ
parse_int32 String.[] = none
parse_int32 (String.◌∷◌ c s) =
    if eqb (code c) b'-'
    then signed 2147483648 minus (digits s)
    else if eqb (code c) b'+'
    then signed 2147483647 pos (digits s)
    else signed 2147483647 pos (digits (String.◌∷◌ c s))

abbrev put_first : Char → List String → List String
put_first c [] = String.◌∷◌ c String.[] ∷ []
put_first c (s ∷ texts) = String.◌∷◌ c s ∷ texts

-- `strings.Split(s, separator)` at a separator of one character, given by its code
unfoldable pub split : ℕ → String → List String
split separator String.[] = String.[] ∷ []
split separator (String.◌∷◌ c s) =
    let rest = split separator s in
    if eqb (code c) separator then String.[] ∷ rest else put_first c rest

-- `strconv.ParseUint(s, 10, 64)` after the digits of `n`: `none` for a syntax error, and the largest value
-- where the number is out of range.
unfoldable pub uint_from : ℕ → String → Option ℕ
uint_from n String.[] = some n
uint_from n (String.◌∷◌ c s) =
    let n' = 10 * n + (code c - b'0') in
    let rest = uint_from n' s in
    if leb b'0' (code c) && leb (code c) b'9'
    then (if leb n' 18446744073709551615 then rest else some 18446744073709551615)
    else none

abbrev uint : String → Option ℕ
uint String.[] = none
uint (String.◌∷◌ c s) = uint_from 0 (String.◌∷◌ c s)

abbrev clipped : (ℕ → ℤ) → ℕ → Option ℕ → ℤ
clipped sign bound none = pos 0
clipped sign bound (some n) = if leb n bound then sign n else sign bound

-- The value that `strconv.Atoi(s)` returns, whether or not with an error
unfoldable pub atoi : String → ℤ
atoi String.[] = pos 0
atoi (String.◌∷◌ c s) =
    if eqb (code c) b'-'
    then clipped minus 9223372036854775808 (uint s)
    else if eqb (code c) b'+'
    then clipped pos 9223372036854775807 (uint s)
    else clipped pos 9223372036854775807 (uint (String.◌∷◌ c s))
