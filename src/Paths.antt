-- ===== src/Paths.antt =====
-- storage/paths.rs: relative paths, and the names of downloads. `Path::components` is that of Unix:
-- the parts between the slashes, of which empty ones are left out.
pub mod Safety
pub mod Names
use teatro.Prelude.{
  ℕ, Bool, true, false, not, ◌||◌, List, [], ◌∷◌, ◌==◌, nat_eq, list_eq, nat_beq, if◌then◌else◌,
}
use teatro.Prelude.Fallible.{Result, ok, err}
use teatro.Prelude.Text.{Text, codes, is_empty, is_ascii_alphanumeric}
use teatro.Prelude.Text.Slices.{split, starts_with, trim_start_matches, trim_end_matches}

pub data PathSafetyError : Type 0 where
  empty absolute parent_traversal : PathSafetyError

abbrev pub is_slash : ℕ → Bool
is_slash c = nat_beq c b'/'

-- One more normal component, before those that the rest of the loop pushes.
abbrev pub push : Text → Result PathSafetyError (List Text) → Result PathSafetyError (List Text)
push segment (ok cleaned) = ok (segment ∷ cleaned)
push segment (err error) = err error

-- The loop over the components.
unfoldable pub clean_components : List Text → Result PathSafetyError (List Text)
clean_components [] = ok []
clean_components (part ∷ parts) =
    let rest = clean_components parts in
    if is_empty part || part == codes "."
    then rest
    else if part == codes ".."
    then err parent_traversal
    else push part rest

abbrev pub if_full : Result PathSafetyError (List Text) → Result PathSafetyError (List Text)
if_full (err error) = err error
if_full (ok cleaned) = if is_empty cleaned then err empty else ok cleaned

-- The components of the cleaned path.
unfoldable pub clean_relative_path : Text → Result PathSafetyError (List Text)
clean_relative_path relative_path =
    if is_empty relative_path
    then err empty
    else if starts_with (codes "/") relative_path
    then err absolute
    else if_full (clean_components (split is_slash relative_path))

abbrev pub is_kept : ℕ → Bool
is_kept c =
    is_ascii_alphanumeric c
    || nat_beq c b' '
    || nat_beq c b'.'
    || nat_beq c b'_'
    || nat_beq c b'-'
    || nat_beq c b'('
    || nat_beq c b')'
    || nat_beq c b'['
    || nat_beq c b']'

abbrev pub sanitize : Text → Text
sanitize [] = []
sanitize (c ∷ s) = (if is_kept c then c else b'_') ∷ sanitize s

abbrev pub is_edge : ℕ → Bool
is_edge c = nat_beq c b' ' || nat_beq c b'.'

unfoldable pub safe_content_disposition_filename : Text → Text
safe_content_disposition_filename file_name =
    let sanitized = trim_end_matches is_edge (trim_start_matches is_edge (sanitize file_name)) in
    if is_empty sanitized then codes "download.bin" else sanitized
