-- ===== src/Prelude/Text/Slices.antt =====
-- More of Rust's `str`: case, white space, searches from the end, and numbers.
use Prim.Native.Nat.{ℕ, suc, ◌+◌, ◌-◌, ◌*◌}
use mathlib.Core.Bool.{Bool, true, false, not, ◌&&◌, ◌||◌}
use mathlib.Core.Option.{Option, none, some}
use mathlib.Core.List.{List, [], ◌∷◌, ◌++◌}
use teatro.Prelude.Tests.{leb, nat_beq, if◌then◌else◌}
use teatro.Prelude.Lists.{length, take, drop, all}
use teatro.Prelude.Equality.{◌==◌, nat_eq, list_eq}
use teatro.Prelude.Text.{Text, is_ascii_digit, is_empty}

-- `char::to_ascii_lowercase` and `str::to_ascii_lowercase`, and their duals.
abbrev pub char_to_lower : ℕ → ℕ
char_to_lower c = if leb b'A' c && leb c b'Z' then c + 32 else c

abbrev pub to_ascii_lowercase : Text → Text
to_ascii_lowercase [] = []
to_ascii_lowercase (c ∷ s) = char_to_lower c ∷ to_ascii_lowercase s

abbrev pub char_to_upper : ℕ → ℕ
char_to_upper c = if leb b'a' c && leb c b'z' then c - 32 else c

abbrev pub to_ascii_uppercase : Text → Text
to_ascii_uppercase [] = []
to_ascii_uppercase (c ∷ s) = char_to_upper c ∷ to_ascii_uppercase s

-- `str::eq_ignore_ascii_case`.
abbrev pub eq_ignore_ascii_case : Text → Text → Bool
eq_ignore_ascii_case s t = to_ascii_lowercase s == to_ascii_lowercase t

-- `char::is_whitespace`: the property White_Space.
abbrev pub is_whitespace : ℕ → Bool
is_whitespace c =
    (leb 0x9 c && leb c 0xd)
    || nat_beq c 0x20
    || nat_beq c 0x85
    || nat_beq c 0xa0
    || nat_beq c 0x1680
    || (leb 0x2000 c && leb c 0x200a)
    || nat_beq c 0x2028
    || nat_beq c 0x2029
    || nat_beq c 0x202f
    || nat_beq c 0x205f
    || nat_beq c 0x3000

-- `trim_start_matches` and `trim_end_matches` by a test on characters.
abbrev pub trim_start_matches : (ℕ → Bool) → Text → Text
trim_start_matches p [] = []
trim_start_matches p (c ∷ s) = let rest = trim_start_matches p s in if p c then rest else c ∷ s

abbrev pub trim_end_matches : (ℕ → Bool) → Text → Text
trim_end_matches p [] = []
trim_end_matches p (c ∷ s) =
    let rest = trim_end_matches p s in if is_empty rest && p c then [] else c ∷ rest

abbrev pub trim_start : Text → Text
trim_start s = trim_start_matches is_whitespace s

abbrev pub trim_end : Text → Text
trim_end s = trim_end_matches is_whitespace s

unfoldable pub trim : Text → Text
trim s = trim_end (trim_start s)

-- `rsplit_once` at a character.
abbrev pub before_split : ℕ → ℕ → Text → Option (Text × Text) → Option (Text × Text)
before_split d c s (some (a, b)) = some (c ∷ a, b)
before_split d c s none = if nat_beq c d then some ([], s) else none

unfoldable pub rsplit_once : ℕ → Text → Option (Text × Text)
rsplit_once d [] = none
rsplit_once d (c ∷ s) = before_split d c s (rsplit_once d s)

-- `starts_with` a text.
abbrev pub starts_with : Text → Text → Bool
starts_with [] s = true
starts_with (c ∷ p) [] = false
starts_with (c ∷ p) (d ∷ s) = nat_beq c d && starts_with p s

-- `rfind` of a text: how many characters stand before its last occurrence.
abbrev pub before_found : Bool → Option ℕ → Option ℕ
before_found here (some i) = some (suc i)
before_found here none = if here then some 0 else none

unfoldable pub rfind : Text → Text → Option ℕ
rfind pattern [] = if is_empty pattern then some 0 else none
rfind pattern (c ∷ s) = before_found (starts_with pattern (c ∷ s)) (rfind pattern s)

-- The slice up to `n` characters before the end.
abbrev pub without_last : ℕ → Text → Text
without_last n s = take (length s - n) s

-- `ends_with` a text.
abbrev pub ends_with : Text → Text → Bool
ends_with p s = leb (length p) (length s) && (drop (length s - length p) s == p)

-- The number that digits write.
abbrev pub digits_value : ℕ → Text → ℕ
digits_value acc [] = acc
digits_value acc (c ∷ s) = digits_value (acc * 10 + (c - b'0')) s

abbrev pub max_u32 : ℕ
max_u32 = 4_294_967_295

-- `parse::<u32>` of a text of digits, where it is not empty: too large a number is an error.
unfoldable pub parse_digits : Text → Option ℕ
parse_digits s =
    if not (is_empty s) && all is_ascii_digit s && leb (digits_value 0 s) max_u32
    then some (digits_value 0 s)
    else none

-- `split` at the characters that pass a test: the parts between them, at least one.
abbrev pub split_on : Bool → ℕ → List Text → List Text
split_on true c parts = [] ∷ parts
split_on false c [] = (c ∷ []) ∷ []
split_on false c (part ∷ parts) = (c ∷ part) ∷ parts

unfoldable pub split : (ℕ → Bool) → Text → List Text
split p [] = [] ∷ []
split p (c ∷ s) = split_on (p c) c (split p s)

-- `take_while` on the characters.
abbrev pub take_while : (ℕ → Bool) → Text → Text
take_while p [] = []
take_while p (c ∷ s) = let rest = take_while p s in if p c then c ∷ rest else []

-- `split_whitespace`: the parts that are not empty.
abbrev pub full_parts : List Text → List Text
full_parts [] = []
full_parts ([] ∷ parts) = full_parts parts
full_parts ((c ∷ part) ∷ parts) = (c ∷ part) ∷ full_parts parts

unfoldable pub split_whitespace : Text → List Text
split_whitespace s = full_parts (split is_whitespace s)

-- `join(" ")`.
abbrev pub join : List Text → Text
join [] = []
join (word ∷ []) = word
join (word ∷ next ∷ words) = word ++ b' ' ∷ join (next ∷ words)

-- `replace` of a character by another.
abbrev pub replace_char : ℕ → ℕ → Text → Text
replace_char old new [] = []
replace_char old new (c ∷ s) = (if nat_beq c old then new else c) ∷ replace_char old new s
