-- ===== src/Paths/Names.antt =====
-- The names that `safe_content_disposition_filename` of storage/paths.rs puts in a header.
use teatro.Prelude.{◌≡◌, refl, inl, inr, true, false, [], ◌∷◌, all, Bool-cases}
use teatro.Prelude.Text.{Text, is_empty}
use teatro.Prelude.Text.Slices.{trim_start_matches, trim_end_matches}
use teatro.Prelude.Text.Trimming.{
  starts_on, ends_on, trim_start_matches-starts_on, trim_end_matches-starts_on,
  trim_end_matches-ends_on, all-trim_start_matches, all-trim_end_matches,
}
use teatro.Paths.{is_kept, sanitize, is_edge, safe_content_disposition_filename}

-- A name of letters, digits and a few signs, that is not empty and neither starts nor ends with a
-- space or a dot.
pub record IsSafeName (name : Text) : Type 0 where
  pub kept : all is_kept name ≡ true
  pub full : is_empty name ≡ false
  pub no_edge : (starts_on is_edge name ≡ false) × (ends_on is_edge name ≡ false)

sanitize-kept : (s : Text) → all is_kept (sanitize s) ≡ true
sanitize-kept [] = refl
sanitize-kept (c ∷ s) = elim (Bool-cases (is_kept c)) [
  | inl kept ↦ rw (kept, kept, sanitize-kept s) refl
  | inr other ↦ rw (other, sanitize-kept s) refl
]

-- The name of a download has only letters and digits of ASCII, spaces, dots, dashes, underscores,
-- parentheses and square brackets, is not empty, and neither starts nor ends with a space or a dot.
pub safe_content_disposition_filename-IsSafeName :
    (file_name : Text) → IsSafeName (safe_content_disposition_filename file_name)
unfolding safe_content_disposition_filename
safe_content_disposition_filename-IsSafeName file_name =
    let started : Text = trim_start_matches is_edge (sanitize file_name) in
    let name : Text = trim_end_matches is_edge started in
    elim (Bool-cases (is_empty name)) [
      | inl nothing ↦
          rw (nothing, safe_content_disposition_filename)
            (record { kept = refl; full = refl; no_edge = (refl, refl) })
      | inr some_text ↦
          rw (some_text, safe_content_disposition_filename)
            (record {
              kept = all-trim_end_matches is_edge is_kept started (
                  all-trim_start_matches is_edge is_kept (sanitize file_name)
                    (sanitize-kept file_name));
              full = some_text;
              no_edge = (
                trim_end_matches-starts_on is_edge started
                    (trim_start_matches-starts_on is_edge (sanitize file_name)),
                trim_end_matches-ends_on is_edge started,
              );
            })
    ]
