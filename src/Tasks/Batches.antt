-- ===== src/Tasks/Batches.antt =====
-- The batches of `schedule_checksum_verification`: how much they hold.
use invenio_files_rest.Prelude.{
  ℕ, ◌+◌, ◌≡◌, ◌≤◌, ◌<◌, refl, ◌⊎◌, inl, inr, some, List, [], ◌∷◌, ◌++◌, leb, arith, ap, Bool-cases,
}
use invenio_files_rest.Schema.{FileInstance}
use invenio_files_rest.Tasks.Scheduling.{batch, total_size}

-- The batch of the files ends with `last`; `rest` is what stays for later batches.
abbrev Ends : ℕ → ℕ → List FileInstance → Type 0
Ends m size files =
    (front : List FileInstance) × (last : FileInstance) × (rest : List FileInstance) × (files
      ≡ front ++ last ∷ rest)
    × (batch (some m) size files ≡ front ++ last ∷ [])
    × (size + total_size front < m)
    × ((rest ≡ []) ⊎ (m ≤ size + total_size front + last.size))

batch-Ends :
    (m size : ℕ) (f : FileInstance) (fs : List FileInstance) → size < m → Ends m size (f ∷ fs)
unfolding batch
batch-Ends m size f [] h = elim (Bool-cases (leb m (size + f.size))) [
  | inl full ↦ ([], f, [], refl, ground arith, omega arith, inl refl)
  | inr short ↦ ([], f, [], refl, ground arith, omega arith, inl refl)
]
batch-Ends m size f (g ∷ gs) h = elim (Bool-cases (leb m (size + f.size))) [
  | inl full ↦ ([], f, g ∷ gs, refl, ground arith, omega arith, inr (ground arith))
  | inr short ↦
      let (front, last, rest, split, run, below, ends) =
        batch-Ends m (size + f.size) g gs (ground arith) in
      (
        f ∷ front,
        last,
        rest,
        ap (λ l. f ∷ l) split,
        ground (arith, run),
        omega (arith, below),
        ground (arith, ends),
      )
]

-- The batch that schedule_checksum_verification takes from a list of at least one file under a
-- positive bound on the size is a first part of the list, of at least one file; the files before
-- its last one stay below the bound together, and it takes the whole list unless its files reach
-- the bound.
pub batch_lem :
    (m : ℕ) (f : FileInstance) (fs : List FileInstance)
    → 0 < m
    → (front : List FileInstance) × (last : FileInstance) × (rest : List FileInstance) × (f ∷ fs
        ≡ front ++ last ∷ rest)
      × (batch (some m) 0 (f ∷ fs) ≡ front ++ last ∷ [])
      × (total_size front < m)
      × ((rest ≡ []) ⊎ (m ≤ total_size front + last.size))
batch_lem m f fs h =
    let (front, last, rest, split, run, below, ends) = batch-Ends m 0 f fs h in
    (front, last, rest, split, run, omega (arith, below), ground (arith, ends))
