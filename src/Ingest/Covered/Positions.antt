-- ===== src/Ingest/Covered/Positions.antt =====
-- The files of a batch that are numbered in their order.
use mathlib.Core.Option.{some-injective}
use teatro.Prelude.{
  ℕ, zero, suc, ◌+◌, ◌≡◌, ◌<◌, ◌∙◌, ap, sym, subst, refl, some, List, [], ◌∷◌, ◌++◌, All, All-mono,
  length, nat_eq, list_eq, arith,
}
use teatro.Ingest.{PlanInputFile, PreparedPlanFile, file_at}

-- The files from the number of the first.
abbrev pub FilesNumbered : ℕ → List PreparedPlanFile → Type 0
FilesNumbered n [] = Unit
FilesNumbered n (file ∷ rest) = (file.input.index ≡ n) × FilesNumbered (suc n) rest

abbrev pub AreNumbered : ℕ → List PlanInputFile → Type 0
AreNumbered n [] = Unit
AreNumbered n (input ∷ rest) = (input.index ≡ n) × AreNumbered (suc n) rest

pub FilesNumbered_snoc :
    (n : ℕ) (files : List PreparedPlanFile) (file : PreparedPlanFile)
    → FilesNumbered n files
    → file.input.index ≡ n + length files
    → FilesNumbered n (files ++ file ∷ [])
FilesNumbered_snoc n [] file h e = (omega (arith, e), tt)
FilesNumbered_snoc n (f ∷ files) file h e =
    (h.0, FilesNumbered_snoc (suc n) files file h.1 (omega (arith, e)))

pub index_at :
    (n : ℕ) (files : List PreparedPlanFile) (index : ℕ) (file : PreparedPlanFile)
    → FilesNumbered n files
    → file_at files index ≡ some file
    → file.input.index ≡ n + index
index_at n [] index file h e = cc
index_at n (f ∷ files) zero file h e =
    let same : f ≡ file = some-injective _ _ e in
    ap (λ (g : PreparedPlanFile). g.input.index) (sym same) ∙ omega (arith, h.0)
index_at n (f ∷ files) (suc index) file h e = omega (arith, index_at (suc n) files index file h.1 e)

pub file_at-some :
    (files : List PreparedPlanFile) (index : ℕ)
    → index < length files
    → (file : PreparedPlanFile) × (file_at files index ≡ some file)
file_at-some [] index l = absurd (omega (arith, l))
file_at-some (file ∷ files) zero l = (file, refl)
file_at-some (file ∷ files) (suc index) l = file_at-some files index (omega (arith, l))

pub positions :
    (n : ℕ) (files : List PreparedPlanFile)
    → FilesNumbered n files
    → All
        (λ (file : PreparedPlanFile).
          (index : ℕ) × (file.input.index ≡ n + index) × (file_at files index ≡ some file))
        files
positions n [] h = tt
positions n (file ∷ files) h = (
  (0, omega (arith, h.0), refl),
  All-mono _ _ (λ f (index, e, k). (suc index, omega (arith, e), k)) files
      (positions (suc n) files h.1),
)

pub All-at {κ} :
    (P : PreparedPlanFile → Type κ) (files : List PreparedPlanFile) (index : ℕ)
    (file : PreparedPlanFile)
    → All P files
    → file_at files index ≡ some file
    → P file
All-at P [] index file h e = cc
All-at P (f ∷ files) zero file h e = subst P (some-injective f file e) h.0
All-at P (f ∷ files) (suc index) file h e = All-at P files index file h.1 e
