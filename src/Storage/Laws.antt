-- ===== src/Storage/Laws.antt =====
-- The laws of the file system, and how steps on a disk follow each other.
use invenio_files_rest.Prelude.{
  ℕ, String, Bool, false, none, some, List, [], ◌++◌, ◌≡◌, refl, ap, ◌⊎◌, inl, inr, arith,
}
use invenio_files_rest.Prelude.Tables.{length}
use invenio_files_rest.Errors.{Error}
use invenio_files_rest.Session.{Result, ok, err, ⊤}
use invenio_files_rest.Storage.Writing.{Stream}
use invenio_files_rest.Storage.Bounds.{bytes}
use invenio_files_rest.Storage.Pyfs.{◌>>=◌, FileSystem, or_clean_up}

-- What PyFilesystem documents of its calls: opening a directory touches no file; "wb" leaves an empty
-- file; bytes that are written at the end of a file are added to it; a file that is there can be
-- opened and read; a file that was removed is gone, and removing a directory makes no file.
pub record IsFileSystem (fs : FileSystem) : Type 0 where
  pub opendir-contents :
      (p n q : String) (create : Bool) (d : fs.Disk)
      → fs.contents p n (fs.opendir q create d).1 ≡ fs.contents p n d
  pub opendir-existing :
      (p n : String) (b : List ℕ) (d : fs.Disk)
      → fs.contents p n d ≡ some b
      → fs.opendir p false d ≡ (ok tt, d)
  pub open_existing-there :
      (p n : String) (b : List ℕ) (d : fs.Disk)
      → fs.contents p n d ≡ some b
      → fs.open_existing p n d ≡ (ok tt, d)
  pub read-contents :
      (p n : String) (b : List ℕ) (d : fs.Disk)
      → fs.contents p n d ≡ some b
      → (s : Stream) × (fs.read p n d ≡ ok s) × (bytes s ≡ b)
  pub open_new-empty :
      (p n : String) (d t : fs.Disk) → fs.open_new p n d ≡ (ok tt, t) → fs.contents p n t ≡ some []
  pub write-end :
      (p n : String) (old new : List ℕ) (d t : fs.Disk)
      → fs.contents p n d ≡ some old
      → fs.write p n (length old) new d ≡ (ok tt, t)
      → fs.contents p n t ≡ some (old ++ new)
  pub remove-gone :
      (p n : String) (d t : fs.Disk) → fs.remove p n d ≡ (ok tt, t) → fs.contents p n t ≡ none
  pub removedir-none :
      (p n a b : String) (d : fs.Disk)
      → fs.contents p n d ≡ none
      → fs.contents p n (fs.removedir a b d).1 ≡ none

module _ {D A B : Type 0} where
  then_go :
      (m : D → Result A × D) (f : A → D → Result B × D) (d t : D) (b : B) (p : Result A × D)
      → m d ≡ p
      → (let (r, u) = p in elim r [ ok a ↦ f a u | err e ↦ (err e, u) ]) ≡ (ok b, t)
      → (a : A) × (u : D) × (m d ≡ (ok a, u)) × (f a u ≡ (ok b, t))
  then_go m f d t b (ok a, u) e run = (a, u, e, run)
  then_go m f d t b (err x, u) e run = ground (arith, run)

  -- Two steps return where the first one does and the second one then does.
  pub then_ok :
      (m : D → Result A × D) (f : A → D → Result B × D) (d t : D) (b : B)
      → (m >>= f) d ≡ (ok b, t)
      → (a : A) × (u : D) × (m d ≡ (ok a, u)) × (f a u ≡ (ok b, t))
  then_ok m f d t b run = then_go m f d t b (m d) refl run

  pub then_run :
      (m : D → Result A × D) (f : A → D → Result B × D) (d u : D) (a : A)
      → m d ≡ (ok a, u)
      → (m >>= f) d ≡ f a u
  then_run m f d u a run =
      ap (λ (p : Result A × D). let (r, v) = p in elim r [ ok b ↦ f b v | err e ↦ (err e, v) ]) run

  pub then_err :
      (m : D → Result A × D) (f : A → D → Result B × D) (d u : D) (e : Error)
      → m d ≡ (err e, u)
      → (m >>= f) d ≡ (err e, u)
  then_err m f d u e run =
      ap (λ (p : Result A × D). let (r, v) = p in elim r [ ok b ↦ f b v | err x ↦ (err x, v) ]) run

module _ {D A : Type 0} (m : D → Result A × D) (clean : D → Result ⊤ × D) where
  pub kept : (d u : D) (a : A) → m d ≡ (ok a, u) → or_clean_up m clean d ≡ (ok a, u)
  unfolding or_clean_up
  kept d u a run = ground (arith, run)

  pub cleaned :
      (d u v : D) (e : Error)
      → m d ≡ (err e, u)
      → clean u ≡ (ok tt, v)
      → or_clean_up m clean d ≡ (err e, v)
  unfolding or_clean_up
  cleaned d u v e run clear = ground (arith, run, clear)

module _ {D A : Type 0} where
  pub answer_cases :
      (p : Result A × D)
      → ((a : A) × (t : D) × (p ≡ (ok a, t))) ⊎ ((e : Error) × (t : D) × (p ≡ (err e, t)))
  answer_cases (ok a, t) = inl (a, t, refl)
  answer_cases (err e, t) = inr (e, t, refl)
