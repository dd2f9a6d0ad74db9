-- ===== src/Normalization/Archives/Portable.antt =====
-- The names of archives are portable.
use teatro.Prelude.{
  ℕ, ◌≡◌, ◌≤◌, refl, Bool, true, false, not, ◌||◌, ◌&&◌, [], ◌∷◌, ◌++◌, nat_beq, ◌+◌, nat_eq,
  list_eq, arith, all, any, and_left, and_right, or_right,
}
use teatro.Prelude.Fallible.{ok}
use teatro.Prelude.Text.{Text, is_empty, is_ascii_alphanumeric, byte_len}
use teatro.Prelude.Text.Slices.{trim, to_ascii_uppercase, is_whitespace}
use teatro.Prelude.Text.Trimming.{
  starts_on, ends_on, trim_start_matches-none, trim_end_matches-none,
}
use teatro.Normalization.{is_name_separator, sanitize_upload_file_name}
use teatro.Normalization.Archives.{
  is_unsafe_character, is_base_edge, archive_base, first_part, is_reserved, unreserved,
  archive_file_name,
}
use teatro.Normalization.Archives.Bases.{
  is_plain, IsBase, archive_base-IsBase, unreserved-IsBase, all-append, byte_len-append,
}
use teatro.Normalization.Archives.Devices.{archive-free}

-- A name that is portable: of plain characters, not that of a device, of bounded length, and one
-- that `sanitize_upload_file_name` takes as it is.
pub record IsPortable (limit : ℕ) (name : Text) : Type 0 where
  pub plain : all is_plain name ≡ true
  pub no_device : is_reserved (to_ascii_uppercase (first_part name)) ≡ false
  pub bounded : byte_len name ≤ limit
  pub sanitized : sanitize_upload_file_name name ≡ ok name

no_blank :
    (unsafe white blank dot : Bool)
    → (not unsafe && (not white || blank)) ≡ true
    → (blank || dot) ≡ false
    → white ≡ false
no_blank unsafe white blank dot h k = ground arith

alphanumeric-white : (c : ℕ) → is_ascii_alphanumeric c ≡ true → is_whitespace c ≡ false
alphanumeric-white c h = ground arith

alphanumeric-plain : (c : ℕ) → is_ascii_alphanumeric c ≡ true → is_plain c ≡ true
alphanumeric-plain c h = ground arith

plain-separator : (c : ℕ) → is_plain c ≡ true → is_name_separator c ≡ false
plain-separator c h = ground arith

all_mono :
    (p q : ℕ → Bool)
    → ((c : ℕ) → p c ≡ true → q c ≡ true)
    → (s : Text) → all p s ≡ true
    → all q s ≡ true
all_mono p q f [] h = refl
all_mono p q f (c ∷ s) h = ground (arith, all_mono p q f s, f c)

any_none :
    (p q : ℕ → Bool)
    → ((c : ℕ) → p c ≡ true → q c ≡ false)
    → (s : Text) → all p s ≡ true
    → any q s ≡ false
any_none p q f [] h = refl
any_none p q f (c ∷ s) h = ground (arith, any_none p q f s, f c)

ends_on-append :
    (p : ℕ → Bool) (s : Text) (c : ℕ) (t : Text) → ends_on p (s ++ c ∷ t) ≡ ends_on p (c ∷ t)
ends_on-append p [] c t = refl
ends_on-append p (d ∷ []) c t = refl
ends_on-append p (d ∷ e ∷ s) c t = ends_on-append p (e ∷ s) c t

ends_on-alphanumeric :
    (c : ℕ) (s : Text)
    → all is_ascii_alphanumeric (c ∷ s) ≡ true
    → ends_on is_whitespace (c ∷ s) ≡ false
ends_on-alphanumeric c [] h = alphanumeric-white c (and_left (is_ascii_alphanumeric c) true h)
ends_on-alphanumeric c (d ∷ s) h =
    ends_on-alphanumeric d s (and_right (is_ascii_alphanumeric c) _ h)

trim-none :
    (s : Text) → starts_on is_whitespace s ≡ false → ends_on is_whitespace s ≡ false → trim s ≡ s
unfolding trim
trim-none s h k =
    rw (trim_start_matches-none is_whitespace s h, trim_end_matches-none is_whitespace s k, trim)
      refl

sanitize-plain :
    (c : ℕ) (s : Text)
    → all is_plain (c ∷ s) ≡ true
    → is_base_edge c ≡ false
    → ends_on is_whitespace (c ∷ s) ≡ false
    → sanitize_upload_file_name (c ∷ s) ≡ ok (c ∷ s)
unfolding sanitize_upload_file_name
sanitize-plain c s h k e =
    let dotless : nat_beq c b'.' ≡ false = or_right (nat_beq c b' ') (nat_beq c b'.') k in
    let start : is_whitespace c ≡ false =
      no_blank (is_unsafe_character c) (is_whitespace c) (nat_beq c b' ') (nat_beq c b'.')
        (and_left (is_plain c) (all is_plain s) h) k in
    rw (trim-none (c ∷ s) start e, sanitize_upload_file_name)
      (rw (dotless, any_none is_plain is_name_separator plain-separator (c ∷ s) h) refl)

dotted-plain :
    (base extension : Text)
    → IsBase 188 base
    → all is_ascii_alphanumeric extension ≡ true
    → all is_plain (base ++ b'.' ∷ extension) ≡ true
dotted-plain base extension h a =
    all-append is_plain base (b'.' ∷ extension) h.plain
      (all_mono is_ascii_alphanumeric is_plain alphanumeric-plain extension a)

ends_on-dotted :
    (base extension : Text)
    → all is_ascii_alphanumeric extension ≡ true
    → is_empty extension ≡ false
    → ends_on is_whitespace (base ++ b'.' ∷ extension) ≡ false
ends_on-dotted base [] a f = cc
ends_on-dotted base (d ∷ extension) a f =
    rw (ends_on-append is_whitespace base b'.' (d ∷ extension)) (ends_on-alphanumeric d extension a)

dotted-sanitized :
    (base extension : Text)
    → IsBase 188 base
    → all is_ascii_alphanumeric extension ≡ true
    → is_empty extension ≡ false
    → sanitize_upload_file_name (base ++ b'.' ∷ extension) ≡ ok (base ++ b'.' ∷ extension)
dotted-sanitized [] extension h a f = cc h.full
dotted-sanitized (c ∷ base) extension h a f =
    sanitize-plain c (base ++ b'.' ∷ extension) (dotted-plain (c ∷ base) extension h a) h.start
      (ends_on-dotted (c ∷ base) extension a f)

-- With an extension of letters and digits of ASCII, at least one, the name of an archive has no
-- control character, no white space but blanks and none of the characters that other systems
-- refuse; it is not that of a device, its base is of at most 188 bytes, and
-- `sanitize_upload_file_name` takes it as it is.
pub archive_file_name-IsPortable :
    (title extension : Text)
    → all is_ascii_alphanumeric extension ≡ true
    → is_empty extension ≡ false
    → IsPortable (189 + byte_len extension) (archive_file_name title extension)
unfolding archive_file_name
archive_file_name-IsPortable title extension a f =
    let base = archive_base title in
    let name = unreserved base (first_part base) in
    let h : IsBase 188 name = unreserved-IsBase base (archive_base-IsBase title) in
    record {
      plain = dotted-plain name extension h a;
      no_device = archive-free base extension;
      bounded = omega (arith, byte_len-append name (b'.' ∷ extension), h.bounded);
      sanitized = dotted-sanitized name extension h a f;
    }
