-- ===== src/Normalization/Values.antt =====
-- The lists of metadata that `normalize_metadata_list` gives.
use teatro.Prelude.{
  ◌≡◌, refl, inl, inr, Bool, true, false, ◌||◌, List, [], ◌∷◌, ◌==◌, nat_eq, list_eq, list_beq_iff,
  any, All, All-mono, Bool-cases, arith, or_left, or_right,
}
use teatro.Prelude.Fallible.{Result, ok, err, Holds, Holds-ok}
use teatro.Prelude.Text.{Text, is_empty}
use teatro.Prelude.Text.Slices.{trim, to_ascii_lowercase, eq_ignore_ascii_case}
use teatro.Filename.Regions.Known.{Distinct}
use teatro.Normalization.{
  LibraryServiceError, is_text_control, push_value, is_seen, normalize_values,
  normalize_metadata_list,
}

-- A value is blank, or among those of the list, ignoring case.
abbrev pub is_covered : List Text → Text → Bool
is_covered list raw = is_empty (trim raw) || any (λ v. eq_ignore_ascii_case v (trim raw)) list

-- The same, where some keys were seen before.
abbrev is_covered_from : List Text → List Text → Text → Bool
is_covered_from seen list raw = is_seen (to_ascii_lowercase (trim raw)) seen || is_covered list raw

record AreValuesFrom (seen values list : List Text) : Type 0 where
  pub clean : All (λ v. (is_empty v ≡ false) × (any is_text_control v ≡ false)) list
  pub fresh : All (λ v. is_seen (to_ascii_lowercase v) seen ≡ false) list
  pub distinct : Distinct list
  pub covers : All (λ raw. is_covered_from seen list raw ≡ true) values

-- The values are not blank, have no control character, differ in more than case, and every value
-- given is blank or among them, ignoring case.
pub record AreValues (values list : List Text) : Type 0 where
  pub clean : All (λ v. (is_empty v ≡ false) × (any is_text_control v ≡ false)) list
  pub distinct : Distinct list
  pub covers : All (λ raw. is_covered list raw ≡ true) values

beq_refl : (s : Text) → (s == s) ≡ true
beq_refl s = ground (arith, list_beq_iff s s)

beq_sym : (s t : Text) → (s == t) ≡ false → (t == s) ≡ false
beq_sym s t h = ground (arith, list_beq_iff s t, list_beq_iff t s)

fresh-Distinct :
    (value : Text) (seen list : List Text)
    → All (λ v. is_seen (to_ascii_lowercase v) (to_ascii_lowercase value ∷ seen) ≡ false) list
    → any (λ existing. eq_ignore_ascii_case existing value) list ≡ false
fresh-Distinct value seen [] h = refl
fresh-Distinct value seen (v ∷ list) h =
    let other : (to_ascii_lowercase v == to_ascii_lowercase value) ≡ false =
      beq_sym (to_ascii_lowercase value) (to_ascii_lowercase v) (or_left _ _ h.0) in
    rw other (fresh-Distinct value seen list h.1)

shuffle : (x s b l : Bool) → ((x || s) || (b || l)) ≡ true → (s || (b || (x || l))) ≡ true
shuffle x s b l h = ground arith

covered-cons :
    (value raw : Text) (seen list : List Text)
    → is_covered_from (to_ascii_lowercase value ∷ seen) list raw ≡ true
    → is_covered_from seen (value ∷ list) raw ≡ true
covered-cons value raw seen list h =
    shuffle (to_ascii_lowercase value == to_ascii_lowercase (trim raw))
      (is_seen (to_ascii_lowercase (trim raw)) seen) (is_empty (trim raw))
      (any (λ v. eq_ignore_ascii_case v (trim raw)) list) h

-- A value that is pushed.
AreValuesFrom-push :
    (raw : Text) (seen values : List Text) (rest : Result LibraryServiceError (List Text))
    → is_empty (trim raw) ≡ false
    → any is_text_control (trim raw) ≡ false
    → is_seen (to_ascii_lowercase (trim raw)) seen ≡ false
    → Holds (AreValuesFrom (to_ascii_lowercase (trim raw) ∷ seen) values) rest
    → Holds (AreValuesFrom seen (raw ∷ values)) (push_value (trim raw) rest)
AreValuesFrom-push raw seen values (err error) f c n h = tt
AreValuesFrom-push raw seen values (ok list) f c n h = record {
  clean = ((f, c), h.clean);
  fresh = (n, All-mono _ _ (λ v. or_right _ _) list h.fresh);
  distinct = (fresh-Distinct (trim raw) seen list h.fresh, h.distinct);
  covers = (
    rw (n, f, beq_refl (to_ascii_lowercase (trim raw))) refl,
    All-mono _ _ (λ other. covered-cons (trim raw) other seen list) values h.covers,
  );
}

skipped : (s b l : Bool) → (s || b) ≡ true → (s || (b || l)) ≡ true
skipped s b l h = ground arith

-- A value that is skipped, since it is blank or was seen.
AreValuesFrom-skip :
    (raw : Text) (seen values : List Text) (rest : Result LibraryServiceError (List Text))
    → (is_seen (to_ascii_lowercase (trim raw)) seen || is_empty (trim raw)) ≡ true
    → Holds (AreValuesFrom seen values) rest
    → Holds (AreValuesFrom seen (raw ∷ values)) rest
AreValuesFrom-skip raw seen values (err error) k h = tt
AreValuesFrom-skip raw seen values (ok list) k h = record {
  clean = h.clean;
  fresh = h.fresh;
  distinct = h.distinct;
  covers =
      (skipped (is_seen (to_ascii_lowercase (trim raw)) seen) (is_empty (trim raw)) _ k, h.covers);
}

normalize_values-AreValuesFrom :
    (seen values : List Text) → Holds (AreValuesFrom seen values) (normalize_values seen values)
unfolding normalize_values
normalize_values-AreValuesFrom seen [] = record {
  clean = tt;
  fresh = tt;
  distinct = tt;
  covers = tt;
}
normalize_values-AreValuesFrom seen (raw ∷ values) =
    let key = to_ascii_lowercase (trim raw) in
    elim (Bool-cases (is_empty (trim raw))) [
      | inl blank ↦
          rw (blank, normalize_values)
            (AreValuesFrom-skip raw seen values (normalize_values seen values)
              (ground (arith, blank)) (normalize_values-AreValuesFrom seen values))
      | inr full ↦ elim (Bool-cases (any is_text_control (trim raw))) [
        | inl control ↦ rw (full, control, normalize_values) tt
        | inr plain ↦ elim (Bool-cases (is_seen key seen)) [
          | inl again ↦
              rw (full, plain, again, normalize_values)
                (AreValuesFrom-skip raw seen values (normalize_values seen values)
                  (ground (arith, again)) (normalize_values-AreValuesFrom seen values))
          | inr first ↦
              rw (full, plain, first, normalize_values)
                (AreValuesFrom-push raw seen values (normalize_values (key ∷ seen) values) full
                  plain first (normalize_values-AreValuesFrom (key ∷ seen) values))
        ]
      ]
    ]

-- Where a list of metadata is accepted, its values are not blank, have no control character and
-- differ in more than case, and every value that was given is blank or among them, ignoring case.
pub normalize_metadata_list-AreValues :
    (values list : List Text) → normalize_metadata_list values ≡ ok list → AreValues values list
unfolding normalize_metadata_list
normalize_metadata_list-AreValues values list e =
    let found =
      Holds-ok (AreValuesFrom [] values) (normalize_values [] values) list
        (normalize_values-AreValuesFrom [] values) e in
    record { clean = found.clean; distinct = found.distinct; covers = found.covers }
