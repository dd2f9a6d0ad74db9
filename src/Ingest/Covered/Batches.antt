-- ===== src/Ingest/Covered/Batches.antt =====
-- What `prepare_inputs` of services/library/ingest/planner.rs makes of inputs that are numbered in
-- their order: a batch, where it finds no error.
use mathlib.Core.Option.{some-injective}
use teatro.Prelude.Appends.{All-snoc, empty_left, snoc_not_empty}
use teatro.Prelude.{
  ℕ, suc, ◌+◌, ◌≡◌, ◌<◌, ◌∙◌, ap, sym, subst, inl, inr, refl, true, some, List, [], ◌∷◌, All,
  All-mono, is_some, length, length-append, not, ◌&&◌, ◌==◌, nat_eq, list_eq, Bool-cases, arith,
}
use teatro.Prelude.Fallible.{Result, ok, err}
use teatro.Prelude.Text.{Text, is_empty}
use teatro.Table.{Table, lookup, insert, contains_key}
use teatro.Table.Laws.{lookup-insert}
use teatro.Filename.Parse.{ParsedFilename}
use teatro.Filename.Parse.Total.{parse-some}
use teatro.Manifests.{ManifestParseError}
use teatro.Normalization.{LibraryServiceError, sanitize_upload_file_name}
use teatro.Normalization.Playlists.{extension_lower, is_manifest_extension}
use teatro.Ingest.{PlanInputFile, ManifestReferences, PreparedPlanFile, file_at}
use teatro.Ingest.DiscSets.{accepted}
use teatro.Ingest.Prepared.{
  PreparedInputs, parse_manifest_references, name_input, if_duplicate, refuse_split, read_manifest,
  warn_unread, push_file, prepare_parsed, prepare_input, prepare_each,
}
use teatro.Ingest.Covered.Positions.{
  FilesNumbered, AreNumbered, FilesNumbered_snoc, index_at, file_at-some, positions, All-at,
}
use teatro.Ingest.Covered.Roms.{IsBatch}
use teatro.Ingest.Covered.Sets.{Stands}

abbrev IsNamed : PreparedPlanFile → Type 0
IsNamed file = is_some (accepted (sanitize_upload_file_name file.input.original_file_name)) ≡ true

pub record IsPrepared (prepared : PreparedInputs) : Type 0 where
  pub numbered : FilesNumbered 0 prepared.files
  pub indexed :
      (name : Text) (index : ℕ)
      → lookup name prepared.name_to_index ≡ some index
      → index < length prepared.files
  pub named : is_empty prepared.errors ≡ true → All IsNamed prepared.files

-- The same files and names, and no error less.
record Grows (before after : PreparedInputs) : Type 0 where
  files : after.files ≡ before.files
  names : after.name_to_index ≡ before.name_to_index
  errors : is_empty after.errors ≡ true → is_empty before.errors ≡ true

refuse_split-Grows :
    (input : PlanInputFile) (parsed : ParsedFilename) (prepared : PreparedInputs)
    → Grows prepared (refuse_split input parsed prepared)
refuse_split-Grows input parsed prepared = elim (Bool-cases (is_some parsed.split_archive)) [
  | inl split ↦
      rw split (record { files = refl; names = refl; errors = λ h. empty_left prepared.errors _ h })
  | inr whole ↦ rw whole (record { files = refl; names = refl; errors = λ h. h })
]

read_manifest-Grows :
    (input : PlanInputFile) (prepared : PreparedInputs)
    (found : Result ManifestParseError ManifestReferences)
    → Grows prepared (read_manifest input prepared found).0
read_manifest-Grows input prepared (ok manifest) = record {
  files = refl;
  names = refl;
  errors = λ h. h;
}
read_manifest-Grows input prepared (err error) = record {
  files = refl;
  names = refl;
  errors = λ h. empty_left prepared.errors _ h;
}

warn_unread-Grows :
    (input : PlanInputFile) (extension : Text) (prepared : PreparedInputs)
    → Grows prepared (warn_unread input extension prepared)
warn_unread-Grows input extension prepared =
    elim (Bool-cases (is_manifest_extension extension && not (is_some input.manifest_contents))) [
      | inl unread ↦ rw unread (record { files = refl; names = refl; errors = λ h. h })
      | inr read ↦ rw read (record { files = refl; names = refl; errors = λ h. h })
    ]

-- After the name of an input, before its file.
record IsNamedInput (input : PlanInputFile) (prepared : PreparedInputs) : Type 0 where
  numbered : FilesNumbered 0 prepared.files
  indexed :
      (name : Text) (index : ℕ)
      → lookup name prepared.name_to_index ≡ some index
      → index < suc (length prepared.files)
  named :
      is_empty prepared.errors ≡ true
      → All IsNamed prepared.files
        × (is_some (accepted (sanitize_upload_file_name input.original_file_name)) ≡ true)

Grows-IsNamedInput :
    (input : PlanInputFile) (before after : PreparedInputs)
    → Grows before after
    → IsNamedInput input before
    → IsNamedInput input after
Grows-IsNamedInput input before after g h = record {
  numbered = subst (FilesNumbered 0) (sym g.files) h.numbered;
  indexed = λ name index e. rw g.files (h.indexed name index (rw g.names at e));
  named = λ fine. rw g.files (h.named (g.errors fine));
}

insert_indexed :
    (file_name : Text) (new bound : ℕ) (names : Table Text ℕ) (name : Text) (index : ℕ)
    → ((other : Text) (i : ℕ) → lookup other names ≡ some i → i < bound)
    → new ≡ bound
    → lookup name (insert file_name new names) ≡ some index
    → index < suc bound
insert_indexed file_name new bound names name index h e found =
    elim (Bool-cases (file_name == name)) [
      | inl same ↦
          let law : lookup name (insert file_name new names) ≡ some new =
            lookup-insert file_name name new names ∙ rw same refl in
          omega (arith, some-injective new index (sym law ∙ found), e)
      | inr other ↦ ground (arith, h name index, found, lookup-insert file_name name new names)
    ]

if_duplicate-IsNamedInput :
    (input : PlanInputFile) (prepared : PreparedInputs) (file_name : Text)
    → sanitize_upload_file_name input.original_file_name ≡ ok file_name
    → input.index ≡ length prepared.files
    → IsPrepared prepared
    → IsNamedInput input (if_duplicate file_name input.index prepared)
if_duplicate-IsNamedInput input prepared file_name clean e h =
    let found =
      λ (name : Text) (index : ℕ)
          (l : lookup name (insert file_name input.index prepared.name_to_index) ≡ some index).
        insert_indexed file_name input.index (length prepared.files) prepared.name_to_index name
          index h.indexed e l in
    elim (Bool-cases (contains_key file_name prepared.name_to_index)) [
      | inl again ↦ rw again (record {
        numbered = h.numbered;
        indexed = found;
        named = λ fine. absurd (snoc_not_empty prepared.errors _ fine);
      })
      | inr new ↦ rw new (record {
        numbered = h.numbered;
        indexed = found;
        named = λ fine. (h.named fine, rw clean refl);
      })
    ]

name_input-IsNamedInput :
    (input : PlanInputFile) (prepared : PreparedInputs) (found : Result LibraryServiceError Text)
    → sanitize_upload_file_name input.original_file_name ≡ found
    → input.index ≡ length prepared.files
    → IsPrepared prepared
    → IsNamedInput input (name_input input prepared found)
      × ((name_input input prepared found).files ≡ prepared.files)
name_input-IsNamedInput input prepared (ok file_name) clean e h = (
  if_duplicate-IsNamedInput input prepared file_name clean e h,
  elim (Bool-cases (contains_key file_name prepared.name_to_index)) [
    | inl again ↦ rw again refl
    | inr new ↦ rw new refl
  ],
)
name_input-IsNamedInput input prepared (err error) clean e h = (
  record {
    numbered = h.numbered;
    indexed = λ name index l. omega (arith, h.indexed name index l);
    named = λ fine. absurd (snoc_not_empty prepared.errors _ fine);
  },
  refl,
)

-- The file of a named input.
with_file-IsPrepared :
    (input : PlanInputFile) (parsed : ParsedFilename) (extension : Text)
    (manifest : ManifestReferences) (prepared : PreparedInputs)
    → input.index ≡ length prepared.files
    → IsNamedInput input prepared
    → IsPrepared (push_file input parsed extension (prepared, manifest))
with_file-IsPrepared input parsed extension manifest prepared e h =
    let warned = warn_unread input extension prepared in
    let g = warn_unread-Grows input extension prepared in
    let k = Grows-IsNamedInput input prepared warned g h in
    record {
      numbered =
          FilesNumbered_snoc 0 warned.files _ k.numbered
            (e ∙ ap length (sym g.files) ∙ omega arith);
      indexed = λ name index l. omega (
        arith,
        k.indexed name index l,
        length-append warned.files (
            record { input = input; parsed = parsed; extension = extension; manifest = manifest }
            ∷ []),
      );
      named = λ fine. All-snoc IsNamed warned.files _ (k.named fine).0 (k.named fine).1;
    }

prepare_parsed-IsPrepared :
    (input : PlanInputFile) (prepared : PreparedInputs) (parsed : ParsedFilename)
    → input.index ≡ length prepared.files
    → IsNamedInput input prepared
    → IsPrepared (prepare_parsed input prepared parsed)
      × (length (prepare_parsed input prepared parsed).files ≡ suc (length prepared.files))
prepare_parsed-IsPrepared input prepared parsed e h =
    let extension = extension_lower input.original_file_name in
    let checked = refuse_split input parsed prepared in
    let c = refuse_split-Grows input parsed prepared in
    let found = parse_manifest_references extension input.manifest_contents in
    let read = read_manifest input checked found in
    let r = read_manifest-Grows input checked found in
    let w = warn_unread-Grows input extension read.0 in
    let files : (warn_unread input extension read.0).files ≡ prepared.files =
      w.files ∙ r.files ∙ c.files in
    (
      with_file-IsPrepared input parsed extension read.1 read.0
          (e ∙ ap length (sym (r.files ∙ c.files)))
          (Grows-IsNamedInput input checked read.0 r
            (Grows-IsNamedInput input prepared checked c h)),
      length-append (warn_unread input extension read.0).files _ ∙ omega (arith, ap length files),
    )

-- The step over one input.
pub prepare_input-IsPrepared :
    (input : PlanInputFile) (prepared : PreparedInputs)
    → input.index ≡ length prepared.files
    → IsPrepared prepared
    → (after : PreparedInputs) × (prepare_input input prepared ≡ some after)
      × IsPrepared after
      × (length after.files ≡ suc (length prepared.files))
unfolding prepare_input
prepare_input-IsPrepared input prepared e h =
    let (parsed, p, _) = parse-some input.original_file_name in
    let found = sanitize_upload_file_name input.original_file_name in
    let (k, files) = name_input-IsNamedInput input prepared found refl e h in
    let (l, longer) =
      prepare_parsed-IsPrepared input (name_input input prepared found) parsed
        (e ∙ ap length (sym files)) k in
    (
      prepare_parsed input (name_input input prepared found) parsed,
      rw (p, prepare_input) refl,
      l,
      longer ∙ ap (λ (files : List PreparedPlanFile). suc (length files)) files,
    )

pub prepare_each-IsPrepared :
    (inputs : List PlanInputFile) (prepared : PreparedInputs)
    → AreNumbered (length prepared.files) inputs
    → IsPrepared prepared
    → (after : PreparedInputs) × (prepare_each inputs prepared ≡ some after)
      × IsPrepared after
      × (length after.files ≡ length prepared.files + length inputs)
unfolding prepare_each
prepare_each-IsPrepared [] prepared n h = (prepared, refl, h, omega arith)
prepare_each-IsPrepared (input ∷ rest) prepared n h =
    let (next, e, k, longer) = prepare_input-IsPrepared input prepared n.0 h in
    let (after, es, ks, long) =
      prepare_each-IsPrepared rest next (subst (λ m. AreNumbered m rest) (sym longer) n.1) k in
    (after, rw (e, prepare_each) es, ks, omega (arith, long, longer))

module _ (prepared : PreparedInputs) (h : IsPrepared prepared) where
  pub IsPrepared-Stands : All (Stands prepared.files) prepared.files
  IsPrepared-Stands =
      All-mono _ _
        (λ file (index, e, k).
          subst (λ i. file_at prepared.files i ≡ some file) (omega (arith, e)) k)
        prepared.files (positions 0 prepared.files h.numbered)

  pub IsPrepared-IsBatch :
      is_empty prepared.errors ≡ true → IsBatch prepared.files prepared.name_to_index
  IsPrepared-IsBatch fine = record {
    indexed = λ name index l.
        let (file, here) = file_at-some prepared.files index (h.indexed name index l) in
        (file, here, omega (arith, index_at 0 prepared.files index file h.numbered here));
    numbered =
        λ index file here. omega (arith, index_at 0 prepared.files index file h.numbered here);
    named = λ index file here. All-at IsNamed prepared.files index file (h.named fine) here;
  }
