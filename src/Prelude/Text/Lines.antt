-- ===== src/Prelude/Text/Lines.antt =====
-- More of Rust's `str`: lines, the split at the first character of a kind, and `parse` of numbers.
use Prim.Native.Nat.{ℕ}
use mathlib.Core.Bool.{not, ◌&&◌}
use mathlib.Core.Option.{Option, none, some}
use mathlib.Core.List.{List, [], ◌∷◌}
use teatro.Prelude.Tests.{leb, nat_beq, if◌then◌else◌}
use teatro.Prelude.Lists.{all}
use teatro.Prelude.Text.{Text, codes, is_empty, is_ascii_digit, strip_prefix}
use teatro.Prelude.Text.Slices.{digits_value, starts_with}

-- `str::lines`: what ends with `\n` or `\r\n`, and what is left after the last of them.
abbrev pub before_line : ℕ → List Text → List Text
before_line c [] = (c ∷ []) ∷ []
before_line c (line ∷ rest) = (c ∷ line) ∷ rest

unfoldable pub lines : Text → List Text
lines [] = []
lines (c ∷ s) =
    let rest = lines s in
    if nat_beq c b'\n'
    then [] ∷ rest
    else if nat_beq c b'\r' && starts_with (codes "\n") s
    then rest
    else before_line c rest

-- `split_once` at a character.
abbrev pub after_split : ℕ → Option (Text × Text) → Option (Text × Text)
after_split c none = none
after_split c (some (a, b)) = some (c ∷ a, b)

unfoldable pub split_once : ℕ → Text → Option (Text × Text)
split_once d [] = none
split_once d (c ∷ s) =
    let rest = after_split c (split_once d s) in if nat_beq c d then some ([], s) else rest

-- `parse` of an unsigned integer with the largest value `max`: one plus sign may stand first.
abbrev pub parse_value : ℕ → Text → Option ℕ
parse_value max s =
    if not (is_empty s) && all is_ascii_digit s && leb (digits_value 0 s) max
    then some (digits_value 0 s)
    else none

abbrev pub or_unsigned : ℕ → Text → Option Text → Option ℕ
or_unsigned max s none = parse_value max s
or_unsigned max s (some digits) = parse_value max digits

unfoldable pub parse_unsigned : ℕ → Text → Option ℕ
parse_unsigned max s = or_unsigned max s (strip_prefix (codes "+") s)

abbrev pub max_usize : ℕ
max_usize = 18_446_744_073_709_551_615
