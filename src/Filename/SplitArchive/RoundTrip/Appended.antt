-- ===== src/Filename/SplitArchive/RoundTrip/Appended.antt =====
-- Texts put together, and how they are taken apart again.
use teatro.Prelude.{
  ℕ, ◌-◌, ◌≡◌, refl, ap, ◌∙◌, Bool, false, ◌||◌, none, some, [], ◌∷◌, ◌++◌, nat_eq, list_eq, arith,
  nat_beq, any, length, length-append, take,
}
use teatro.Prelude.Text.{Text, is_empty}
use teatro.Prelude.Text.Slices.{
  to_ascii_lowercase, is_whitespace, trim, trim_start, trim_end, rsplit_once, without_last,
}
use teatro.Filename.{basename, is_separator}

pub basename_plain : (s : Text) → any is_separator s ≡ false → basename s ≡ s
unfolding basename
basename_plain [] h = refl
basename_plain (c ∷ s) h = ground (arith, basename_plain s)

pub any-append : (p : ℕ → Bool) (s t : Text) → any p (s ++ t) ≡ (any p s || any p t)
any-append p [] t = refl
any-append p (c ∷ s) t = ground (arith, any-append p s t)

pub to_ascii_lowercase-append :
    (s t : Text) → to_ascii_lowercase (s ++ t) ≡ to_ascii_lowercase s ++ to_ascii_lowercase t
to_ascii_lowercase-append [] t = refl
to_ascii_lowercase-append (c ∷ s) t = rw (to_ascii_lowercase-append s t)

pub rsplit_once-none :
    (d : ℕ) (b : Text) → any (λ c. nat_beq c d) b ≡ false → rsplit_once d b ≡ none
unfolding rsplit_once
rsplit_once-none d [] h = refl
rsplit_once-none d (c ∷ b) h = ground (arith, rsplit_once-none d b)

-- The last dot is the one before a text without dots.
pub rsplit_once-append :
    (d : ℕ) (a b : Text)
    → any (λ c. nat_beq c d) b ≡ false
    → rsplit_once d (a ++ d ∷ b) ≡ some (a, b)
unfolding rsplit_once
rsplit_once-append d [] b h = rw (rsplit_once-none d b h) (ground arith)
rsplit_once-append d (c ∷ a) b h = rw (rsplit_once-append d a b h)

pub take-append : (s t : Text) → take (length s) (s ++ t) ≡ s
take-append [] t = refl
take-append (c ∷ s) t = rw (take-append s t)

pub without_last-append : (n : ℕ) (s t : Text) → length t ≡ n → without_last n (s ++ t) ≡ s
without_last-append n s t h =
    let count : length (s ++ t) - n ≡ length s = omega (arith, length-append s t) in
    ap (λ k. take k (s ++ t)) count ∙ take-append s t

pub is_empty-append : (s t : Text) → is_empty t ≡ false → is_empty (s ++ t) ≡ false
is_empty-append [] t h = h
is_empty-append (c ∷ s) t h = refl

pub trim_end-append :
    (s t : Text) → is_empty (trim_end t) ≡ false → trim_end (s ++ t) ≡ s ++ trim_end t
trim_end-append [] t h = refl
trim_end-append (c ∷ s) t h =
    let rest = trim_end-append s t h in rw (rest, is_empty-append s (trim_end t) h) refl

-- A name that starts and ends with a visible character is not trimmed.
pub trim_plain :
    (c : ℕ) (s t : Text)
    → is_whitespace c ≡ false
    → trim_end t ≡ t
    → is_empty t ≡ false
    → trim (c ∷ s ++ t) ≡ c ∷ s ++ t
unfolding trim
trim_plain c s t visible ends full =
    let start : trim_start (c ∷ s ++ t) ≡ c ∷ s ++ t = rw visible refl in
    let kept : is_empty (trim_end t) ≡ false = rw ends full in
    ap trim_end start ∙ trim_end-append (c ∷ s) t kept ∙ ap (λ x. c ∷ s ++ x) ends
