-- ===== src/Tasks/Orphans.antt =====
-- `clear_orphaned_files`: which removals it queues, and how many.
use Prim.Native.Nat.{min}
use invenio_files_rest.Prelude.{
  ℕ, suc, zero, Bool, true, ◌≡◌, refl, inl, inr, List, [], ◌∷◌, ◌++◌, arith, ◌∙◌, false,
  if◌then◌else◌,
}
use mathlib.Core.List.{append_assoc}
use invenio_files_rest.Prelude.Int.{pos}
use invenio_files_rest.Prelude.Tables.{length, select, count, length-select, length-append}
use invenio_files_rest.Prelude.Members.{IsIn}
use invenio_files_rest.Schema.{FileInstance, Task, remove_file_data as remove_data}
use invenio_files_rest.Session.{Session, ok, delay, for_each, ◌>>=◌}
use invenio_files_rest.Tasks.{is_orphan, take, clear_orphaned_files}

abbrev pub Each : {A : Type 0} → (A → Type 0) → List A → Type 0
Each P [] = Unit
Each P (x ∷ xs) = P x × Each P xs

-- The task removes a file of the table that no version has, by force where the check says so.
abbrev pub IsRemoval : (FileInstance → Bool) → Session → Task → Type 0
IsRemoval force s t =
    (f : FileInstance) × IsIn f s.files
    × (is_orphan s.objects f ≡ true)
    × (t ≡ remove_data f.id (force f))

module _ {A : Type 0} where
  Each-map : (P Q : A → Type 0) (xs : List A) → ((x : A) → P x → Q x) → Each P xs → Each Q xs
  Each-map P Q [] h e = tt
  Each-map P Q (x ∷ xs) h e = (h x e.0, Each-map P Q xs h e.1)

  Each-append : (P : A → Type 0) (xs ys : List A) → Each P xs → Each P ys → Each P (xs ++ ys)
  Each-append P [] ys a b = b
  Each-append P (x ∷ xs) ys a b = (a.0, Each-append P xs ys a.1 b)

  Each-take : (P : A → Type 0) (n : ℕ) (xs : List A) → Each P xs → Each P (take n xs)
  Each-take P zero xs e = tt
  Each-take P (suc n) [] e = tt
  Each-take P (suc n) (x ∷ xs) e = (e.0, Each-take P n xs e.1)

  length-take : (n : ℕ) (xs : List A) → length (take n xs) ≡ min n (length xs)
  length-take zero xs = omega arith
  length-take (suc n) [] = omega arith
  length-take (suc n) (x ∷ xs) = omega (arith, length-take n xs)

  -- The rows that pass are rows of the table that pass.
  Each-select : (p : A → Bool) (xs : List A) → Each (λ x. IsIn x xs × (p x ≡ true)) (select p xs)
  Each-select p [] = tt
  Each-select p (x ∷ xs) =
      let rest =
        Each-map (λ y. IsIn y xs × (p y ≡ true)) (λ y. IsIn y (x ∷ xs) × (p y ≡ true)) (select p xs)
          (λ y h. (inr h.0, h.1)) (Each-select p xs) in
      go (p x) refl rest
    where
      go :
          (b : Bool)
          → p x ≡ b
          → Each (λ y. IsIn y (x ∷ xs) × (p y ≡ true)) (select p xs)
          → Each (λ y. IsIn y (x ∷ xs) × (p y ≡ true)) (if b then x ∷ select p xs else select p xs)
      go true e rest = ((inl refl, e), rest)
      go false e rest = rest

-- What a loop that sends off a task for each item adds to the queue.
Queued : {A : Type 0} → (A → Task) → (Task → Type 0) → List A → Session → Type 0
Queued task P xs s =
    (new : List Task) × (for_each xs (λ x. delay (task x)) s
      ≡ (ok tt, record s { queue = new ++ s.queue }))
    × Each P new
    × (length new ≡ length xs)

queue_all :
    {A : Type 0} (task : A → Task) (P : Task → Type 0) (xs : List A) (s : Session)
    → Each (λ x. P (task x)) xs
    → Queued task P xs s
unfolding Queued for_each ◌>>=◌
queue_all task P [] s e = ([], refl, tt, refl)
queue_all task P (x ∷ xs) s e =
    let (new, run, each, many) = queue_all task P xs (record s { queue = task x ∷ s.queue }) e.1 in
    (
      new ++ task x ∷ [],
      run ∙ simp (append_assoc),
      Each-append P new (task x ∷ []) each (e.0, tt),
      omega (arith, many, length-append new (task x ∷ [])),
    )

-- With a positive limit, clear_orphaned_files changes nothing but the queue, to which it adds
-- tasks that each remove a file of the table that no version has, by force exactly where the
-- check says so; their number is the number of those files, or the limit if that is less.
pub clear_orphaned_files_lem :
    (force : FileInstance → Bool) (n : ℕ) (s : Session)
    → (new : List Task) × (clear_orphaned_files force (pos (suc n)) s
        ≡ (ok tt, record s { queue = new ++ s.queue }))
      × Each (IsRemoval force s) new
      × (length new ≡ min (suc n) (count (is_orphan s.objects) s.files))
unfolding clear_orphaned_files Queued ◌>>=◌
clear_orphaned_files_lem force n s =
    let orphans = select (is_orphan s.objects) s.files in
    let each =
      Each-take (λ f. IsRemoval force s (remove_data f.id (force f))) (suc n) orphans
        (Each-map _ _ orphans (λ f h. (f, h.0, h.1, refl))
          (Each-select (is_orphan s.objects) s.files)) in
    let (new, run, removals, many) =
      queue_all (λ f. remove_data f.id (force f)) (IsRemoval force s) (take (suc n) orphans) s
        each in
    (
      new,
      run,
      removals,
      omega (arith, many, length-take (suc n) orphans, length-select (is_orphan s.objects) s.files),
    )
