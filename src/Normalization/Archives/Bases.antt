-- ===== src/Normalization/Archives/Bases.antt =====
-- The base of the name of an archive: its characters and its bytes.
use teatro.Prelude.{
  ℕ, ◌≡◌, ◌≤◌, refl, inl, inr, Bool, true, false, not, ◌||◌, ◌&&◌, [], ◌∷◌, ◌++◌, leb, nat_beq, ◌+◌,
  if◌then◌else◌, arith, Bool-cases, or_right, all, length, drop,
}
use teatro.Prelude.Text.{Text, codes, is_empty, byte_len, len_utf8}
use teatro.Prelude.Text.Slices.{
  trim, trim_start_matches, trim_end_matches, to_ascii_uppercase, is_whitespace,
}
use teatro.Prelude.Text.Trimming.{
  starts_on, trim_start_matches-starts_on, trim_end_matches-starts_on, byte_len-trim_start_matches,
  byte_len-trim_end_matches, all-trim_start_matches, all-trim_end_matches,
}
use teatro.Normalization.Archives.{
  is_unsafe_character, replaced, is_separator, pushed, max_base, archive_from, is_base_edge,
  or_game, archive_base, first_part, is_reserved, unreserved,
}

-- A character of a base: one that is not replaced, nor a white space but the blank.
abbrev pub is_plain : ℕ → Bool
is_plain c = not (is_unsafe_character c) && (not (is_whitespace c) || nat_beq c b' ')

pub all-append :
    (p : ℕ → Bool) (s t : Text) → all p s ≡ true → all p t ≡ true → all p (s ++ t) ≡ true
all-append p [] t h k = k
all-append p (c ∷ s) t h k = ground (arith, all-append p s t)

all-append_left : (p : ℕ → Bool) (s t : Text) → all p (s ++ t) ≡ true → all p s ≡ true
all-append_left p [] t h = refl
all-append_left p (c ∷ s) t h = ground (arith, all-append_left p s t)

all-append_right : (p : ℕ → Bool) (s t : Text) → all p (s ++ t) ≡ true → all p t ≡ true
all-append_right p [] t h = h
all-append_right p (c ∷ s) t h = ground (arith, all-append_right p s t)

pub byte_len-append : (s t : Text) → byte_len (s ++ t) ≡ byte_len s + byte_len t
byte_len-append [] t = omega arith
byte_len-append (c ∷ s) t = omega (arith, byte_len-append s t)

len_utf8-le : (c : ℕ) → len_utf8 c ≤ 4
len_utf8-le c = ground arith

replaced-safe : (c : ℕ) → is_unsafe_character (replaced c) ≡ false
replaced-safe c = elim (Bool-cases (is_unsafe_character c)) [
  | inl bad ↦ rw bad refl
  | inr good ↦ rw good good
]

pushed_char-plain : (c : ℕ) → is_separator c ≡ false → all is_plain (replaced c ∷ []) ≡ true
pushed_char-plain c h = rw (replaced-safe c, or_right _ (is_whitespace (replaced c)) h) refl

pushed-plain : (previous : Bool) (c : ℕ) → all is_plain (pushed previous c) ≡ true
pushed-plain true c = elim (Bool-cases (is_separator c)) [
  | inl separator ↦ rw separator refl
  | inr other ↦ rw other (pushed_char-plain c other)
]
pushed-plain false c = elim (Bool-cases (is_separator c)) [
  | inl separator ↦ rw separator refl
  | inr other ↦ rw other (pushed_char-plain c other)
]

pushed-byte_len : (previous : Bool) (c : ℕ) → byte_len (pushed previous c) ≤ 4
pushed-byte_len previous c = ground (arith, len_utf8-le (replaced c))

if-plain :
    (stop : Bool) (rest : Text)
    → all is_plain rest ≡ true
    → all is_plain (if stop then [] else rest) ≡ true
if-plain true rest h = refl
if-plain false rest h = h

archive_from-plain :
    (previous : Bool) (len : ℕ) (s : Text) → all is_plain (archive_from previous len s) ≡ true
unfolding archive_from
archive_from-plain previous len [] = refl
archive_from-plain previous len (c ∷ s) =
    all-append is_plain (pushed previous c) _ (pushed-plain previous c) (
      if-plain (leb max_base (len + byte_len (pushed previous c)))
        (archive_from (is_separator c) (len + byte_len (pushed previous c)) s)
        (archive_from-plain (is_separator c) (len + byte_len (pushed previous c)) s))

if-bounded :
    (len more : ℕ) (rest : Text)
    → len ≤ 179
    → more ≤ 4
    → (len + more ≤ 179 → (len + more) + byte_len rest ≤ 183)
    → len + (more + byte_len (if leb max_base (len + more) then [] else rest)) ≤ 183
if-bounded len more rest h k bounded = elim (Bool-cases (leb max_base (len + more))) [
  | inl stop ↦ rw stop (omega arith)
  | inr going ↦ rw going (omega (arith, bounded (ground (arith, going))))
]

-- A round starts below 180 bytes, and pushes at most four.
archive_from-bounded :
    (previous : Bool) (len : ℕ) (s : Text)
    → len ≤ 179
    → len + byte_len (archive_from previous len s) ≤ 183
unfolding archive_from
archive_from-bounded previous len [] h = omega arith
archive_from-bounded previous len (c ∷ s) h =
    let more = pushed previous c in
    let rest = archive_from (is_separator c) (len + byte_len more) s in
    rw (byte_len-append more (if leb max_base (len + byte_len more) then [] else rest)) (
      if-bounded len (byte_len more) rest h (pushed-byte_len previous c)
        (archive_from-bounded (is_separator c) (len + byte_len more) s))

-- A base that can be put before a dot and an extension, of at most `limit` bytes.
pub record IsBase (limit : ℕ) (base : Text) : Type 0 where
  pub plain : all is_plain base ≡ true
  pub full : is_empty base ≡ false
  pub start : starts_on is_base_edge base ≡ false
  pub bounded : byte_len base ≤ limit

or_game-IsBase :
    (s : Text)
    → all is_plain s ≡ true
    → starts_on is_base_edge s ≡ false
    → byte_len s ≤ 183
    → IsBase 183 (or_game s)
or_game-IsBase [] p h b = record { plain = refl; full = refl; start = refl; bounded = omega arith }
or_game-IsBase (c ∷ s) p h b = record { plain = p; full = refl; start = h; bounded = b }

pub archive_base-IsBase : (title : Text) → IsBase 183 (archive_base title)
unfolding archive_base
archive_base-IsBase title =
    let pushed_on = archive_from false 0 (trim title) in
    let started = trim_start_matches is_base_edge pushed_on in
    or_game-IsBase (trim_end_matches is_base_edge started)
      (all-trim_end_matches is_base_edge is_plain started (
        all-trim_start_matches is_base_edge is_plain pushed_on
          (archive_from-plain false 0 (trim title))))
      (trim_end_matches-starts_on is_base_edge started
        (trim_start_matches-starts_on is_base_edge pushed_on))
      (omega (
        arith,
        byte_len-trim_end_matches is_base_edge started,
        byte_len-trim_start_matches is_base_edge pushed_on,
        archive_from-bounded false 0 (trim title) (omega arith),
      ))

first_part-drop : (s : Text) → first_part s ++ drop (length (first_part s)) s ≡ s
first_part-drop [] = refl
first_part-drop (c ∷ s) = elim (Bool-cases (nat_beq c b'.')) [
  | inl dot ↦ rw dot refl
  | inr other ↦ rw (other, first_part-drop s) refl
]

-- The insertion in the middle of a base.
insert-IsBase :
    (first rest : Text)
    → is_empty first ≡ false
    → IsBase 183 (first ++ rest)
    → IsBase 188 (first ++ (codes " Game" ++ rest))
insert-IsBase [] rest f h = cc
insert-IsBase (c ∷ first) rest f h = record {
  plain =
      all-append is_plain (c ∷ first) (codes " Game" ++ rest)
        (all-append_left is_plain (c ∷ first) rest h.plain)
        (all-append_right is_plain (c ∷ first) rest h.plain);
  full = refl;
  start = h.start;
  bounded =
      omega (
        arith,
        h.bounded,
        byte_len-append first rest,
        byte_len-append first (codes " Game" ++ rest),
      );
}

reserved_full :
    (first : Text) → is_reserved (to_ascii_uppercase first) ≡ true → is_empty first ≡ false
reserved_full [] h = cc
reserved_full (c ∷ first) h = refl

pub unreserved-IsBase :
    (base : Text) → IsBase 183 base → IsBase 188 (unreserved base (first_part base))
unreserved-IsBase base h = elim (Bool-cases (is_reserved (to_ascii_uppercase (first_part base)))) [
  | inl device ↦ rw device (
      insert-IsBase (first_part base) (drop (length (first_part base)) base)
        (reserved_full (first_part base) device) (rw (first_part-drop base) h))
  | inr free ↦ rw free (record {
    plain = h.plain;
    full = h.full;
    start = h.start;
    bounded = omega (arith, h.bounded);
  })
]
