-- ===== src/Ingest/Covered/Sidecars.antt =====
-- A sidecar that goes to the rom of its disc takes no other file with it.
use teatro.Prelude.Appends.{any_snoc}
use teatro.Prelude.{
  ℕ, ◌≡◌, inl, inr, refl, subst, nat_beq_iff, Bool, true, false, not, Option, none, some, List, [],
  ◌∷◌, ◌++◌, any, retain, nat_beq, nat_eq, list_eq, ◌==◌, Bool-cases, arith,
}
use teatro.Prelude.Text.{Text, codes}
use teatro.Ingest.{
  PlanFileKey, uploaded, generated_m3u, PreparedPlanFile, IngestPlanFile, IngestPlanRom,
}
use teatro.Ingest.Sidecars.{
  file_stem, owning_file, with_sidecar, attach_here, attach_sidecar, is_key, is_alone,
  without_alone, move_sidecar, move_sidecars,
}
use teatro.Ingest.Covered.{has_key}

-- A file with this index is in one of the roms.
abbrev pub planned : List IngestPlanRom → ℕ → Bool
planned roms index = any (λ rom. has_key rom.files index) roms

abbrev keeps : ℕ → IngestPlanRom → Bool
keeps index rom = not (is_alone index rom.files)

has_key_old :
    (files : List IngestPlanFile) (file : IngestPlanFile) (index : ℕ)
    → has_key files index ≡ true
    → has_key (files ++ file ∷ []) index ≡ true
has_key_old files file index h =
    ground (arith, h, any_snoc (λ (f : IngestPlanFile). is_key f.key index) files file)

has_key_new :
    (files : List IngestPlanFile) (file : IngestPlanFile) (index : ℕ)
    → is_key file.key index ≡ true
    → has_key (files ++ file ∷ []) index ≡ true
has_key_new files file index h =
    ground (arith, h, any_snoc (λ (f : IngestPlanFile). is_key f.key index) files file)

is_alone_pair :
    (index : ℕ) (stem : Text) (files : List IngestPlanFile) (owner file : IngestPlanFile)
    → owning_file stem files ≡ some owner
    → is_alone index (files ++ file ∷ []) ≡ false
unfolding owning_file
is_alone_pair index stem [] owner file h = cc
is_alone_pair index stem (f ∷ []) owner file h = refl
is_alone_pair index stem (f ∷ g ∷ rest) owner file h = refl

is_key_same :
    (key : PlanFileKey) (index other : ℕ)
    → is_key key index ≡ true
    → is_key key other ≡ true
    → nat_beq index other ≡ true
is_key_same (uploaded own) index other h k = ground (arith, h, k)
is_key_same (generated_m3u rom_index) index other h k = cc

is_alone_key :
    (index other : ℕ) (files : List IngestPlanFile)
    → is_alone index files ≡ true
    → has_key files other ≡ true
    → nat_beq index other ≡ true
is_alone_key index other [] h k = cc
is_alone_key index other (file ∷ []) h k = is_key_same file.key index other h (ground (arith, k))
is_alone_key index other (file ∷ g ∷ rest) h k = cc

module _ (sidecar : PreparedPlanFile) where
  -- The rom of the disc has the sidecar, is kept, and has its other files.
  with_sidecar_keeps :
      (owner : IngestPlanFile) (rom : IngestPlanRom)
      → owning_file (file_stem sidecar.input.original_file_name) rom.files ≡ some owner
      → (keeps sidecar.input.index (with_sidecar sidecar owner rom) ≡ true)
        × (has_key (with_sidecar sidecar owner rom).files sidecar.input.index ≡ true)
  with_sidecar_keeps owner rom h = (
    rw (is_alone_pair sidecar.input.index _ rom.files owner _ h) refl,
    has_key_new rom.files _ sidecar.input.index (ground arith),
  )

  with_sidecar_has :
      (owner : IngestPlanFile) (rom : IngestPlanRom) (index : ℕ)
      → has_key rom.files index ≡ true
      → has_key (with_sidecar sidecar owner rom).files index ≡ true
  with_sidecar_has owner rom index h = has_key_old rom.files _ index h

  -- What `attach_sidecar` answers, where it finds the disc.
  abbrev Attached : List IngestPlanRom → Option (List IngestPlanRom) → Type 0
  Attached roms none = Unit
  Attached roms (some attached) =
      ((index : ℕ) → planned roms index ≡ true → planned attached index ≡ true)
      × (planned (retain (keeps sidecar.input.index) attached) sidecar.input.index ≡ true)

  attach_here-Attached :
      (rom : IngestPlanRom) (rest : List IngestPlanRom) (later : Option (List IngestPlanRom))
      (found : Option IngestPlanFile)
      → owning_file (file_stem sidecar.input.original_file_name) rom.files ≡ found
      → Attached rest later
      → Attached (rom ∷ rest) (attach_here sidecar rom rest later found)
  attach_here-Attached rom rest later (some owner) e h =
      let (k, own) = with_sidecar_keeps owner rom e in
      (
        (λ index p. elim (Bool-cases (has_key rom.files index)) [
          | inl here ↦ rw (with_sidecar_has owner rom index here) refl
          | inr there ↦ ground (arith, p, there)
        ]),
        rw k (rw own refl),
      )
  attach_here-Attached rom rest none none e h = tt
  attach_here-Attached rom rest (some later) none e h = (
    (λ index p. ground (arith, p, h.0 index)),
    elim (Bool-cases (keeps sidecar.input.index rom)) [
      | inl kept ↦ rw kept (ground (arith, h.1))
      | inr gone ↦ rw gone h.1
    ],
  )

  attach_sidecar-Attached :
      (roms : List IngestPlanRom) → Attached roms (attach_sidecar sidecar roms)
  unfolding attach_sidecar
  attach_sidecar-Attached [] = tt
  attach_sidecar-Attached (rom ∷ rest) =
      attach_here-Attached rom rest _ _ refl (attach_sidecar-Attached rest)

retain_keeps :
    (own index : ℕ) (roms : List IngestPlanRom)
    → planned roms index ≡ true
    → nat_beq own index ≡ false
    → planned (retain (keeps own) roms) index ≡ true
retain_keeps own index [] h n = cc
retain_keeps own index (rom ∷ rest) h n = elim (Bool-cases (is_alone own rom.files)) [
  | inl alone ↦ elim (Bool-cases (has_key rom.files index)) [
    | inl here ↦ cc (is_alone_key own index rom.files alone here)
    | inr there ↦ rw alone (retain_keeps own index rest (ground (arith, h, there)) n)
  ]
  | inr more ↦ elim (Bool-cases (has_key rom.files index)) [
    | inl here ↦ rw (more, here) refl
    | inr there ↦ rw (more, there) (retain_keeps own index rest (ground (arith, h, there)) n)
  ]
]

without_alone_keeps :
    (sidecar : PreparedPlanFile) (roms : List IngestPlanRom) (found : Option (List IngestPlanRom))
    (index : ℕ)
    → Attached sidecar roms found
    → planned roms index ≡ true
    → planned (without_alone sidecar.input.index roms found) index ≡ true
without_alone_keeps sidecar roms none index a h = h
without_alone_keeps sidecar roms (some attached) index a h =
    elim (Bool-cases (nat_beq sidecar.input.index index)) [
      | inl same ↦
          subst (λ i. planned (retain (keeps sidecar.input.index) attached) i ≡ true)
            ((nat_beq_iff sidecar.input.index index).0 same) a.1
      | inr other ↦ retain_keeps sidecar.input.index index attached (a.0 index h) other
    ]

pub move_sidecars_keeps :
    (files : List PreparedPlanFile) (roms : List IngestPlanRom) (index : ℕ)
    → planned roms index ≡ true
    → planned (move_sidecars files roms) index ≡ true
unfolding move_sidecars
move_sidecars_keeps [] roms index h = h
move_sidecars_keeps (file ∷ rest) roms index h = elim (Bool-cases (file.extension == codes "sbi")) [
  | inl sidecar ↦ rw sidecar (
      move_sidecars_keeps rest (move_sidecar file roms) index
        (without_alone_keeps file roms _ index (attach_sidecar-Attached file roms) h))
  | inr other ↦ rw other (move_sidecars_keeps rest roms index h)
]
