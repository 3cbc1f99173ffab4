-- ===== src/Rest/Heads.antt =====
-- The head of an object after one of its versions is removed through the REST interface.
use mathlib.Core.Path.{subst}
use invenio_files_rest.Prelude.{
  List-cases, ltb, sym, ap, ◌∙◌, ℕ, ◌≤◌, String, ◌≡◌, refl, ◌⊎◌, inl, inr, true, false, not, ◌&&◌,
  ◌==◌, str_eq, List, [], ◌∷◌, arith, Bool-cases, ==→eq, ==_refl, eq_iff, eq_refl,
}
use invenio_files_rest.Prelude.Tables.{
  select-update_new, select-count_zero, select, count, update, delete, count-split, count_mono,
  count-select, count-update_bound, count-update_ge, count-update_same, count-delete,
}
use invenio_files_rest.Prelude.Members.{
  IsIn, IsIn-select, count-IsIn, select-IsIn, select-IsIn_passes,
}
use invenio_files_rest.Prelude.Sorting.{order_by, insert_sorted, count-order_by, IsIn-order_by}
use invenio_files_rest.Schema.{ObjectVersion}
use invenio_files_rest.Session.{Session, ok, ◌>>=◌}
use invenio_files_rest.Bucket
use invenio_files_rest.ObjectVersion.Reading.{has_version, of_key, head_of, newer, get_versions}
use invenio_files_rest.ObjectVersion.Changing.{is_row_of}
use invenio_files_rest.ObjectVersion.Heads.{with_objects}
use invenio_files_rest.Rest.Objects.{restore_head}

abbrev pub crowned : ObjectVersion → ObjectVersion
crowned o = record o { is_head = true }

-- A version of an object that has no head is made its head.
module _ (b : ℕ) (key : String) (l : ObjectVersion) (os : List ObjectVersion)
    (unique : count (has_version l.version_id) os ≤ 1) (headless : count (head_of b key) os ≡ 0)
    (present : 1 ≤ count (λ x. has_version l.version_id x && of_key b key x) os) where
  crowned_one : count (head_of b key) (update (has_version l.version_id) crowned os) ≡ 1
  crowned_one =
      let p = has_version l.version_id in
      omega (
        arith,
        count-update_bound p (head_of b key) crowned os,
        count-update_ge p (head_of b key) crowned os,
        count_mono (λ x. p x && head_of b key (crowned x)) p os (λ x h. ground arith),
        count_mono (λ x. p x && of_key b key x) (λ x. p x && head_of b key (crowned x)) os
            (λ x h. ground arith),
      )

  crowned_other :
      (c : ℕ) (k : String)
      → (b == c && str_eq key k) ≡ false
      → count (head_of c k) (update (has_version l.version_id) crowned os) ≤ count (head_of c k) os
  crowned_other c k other =
      let p = has_version l.version_id in
      omega (
        arith,
        count-update_bound p (head_of c k) crowned os,
        count-split p (of_key b key) os,
        count_mono (λ x. p x && head_of c k (crowned x)) (λ x. p x && not (of_key b key x)) os
            (λ x h. ground (
              arith,
              ==→eq x.bucket_id b,
              ==→eq x.bucket_id c,
              eq_iff x.key key,
              eq_iff x.key k,
              eq_iff key k,
              ==_refl b,
            )),
      )

-- The first of the versions by their time of creation is the newest.
newest_first :
    (os : List ObjectVersion) (l : ObjectVersion) (rest : List ObjectVersion)
    → order_by newer os ≡ l ∷ rest
    → count (λ x. ltb l.created x.created) os ≡ 0
newest_first [] l rest h = refl
newest_first (o ∷ os) l rest h = go (λ k r. newest_first os k r) (order_by newer os) refl h
  where
    go :
        ((k : ObjectVersion) (r : List ObjectVersion)
          → order_by newer os ≡ k ∷ r
          → count (λ x. ltb k.created x.created) os ≡ 0)
        → (sorted : List ObjectVersion) → order_by newer os ≡ sorted
        → insert_sorted newer o sorted ≡ l ∷ rest
        → count (λ x. ltb l.created x.created) (o ∷ os) ≡ 0
    go ih [] e h =
        let none_left : count (λ x. ltb o.created x.created) os ≡ 0 =
          sym (count-order_by newer (λ x. ltb o.created x.created) os)
          ∙ ap (λ (ys : List ObjectVersion). count (λ x. ltb o.created x.created) ys) e in
        ground arith
    go ih (y ∷ ys) e h = elim (Bool-cases (ltb o.created y.created)) [
      | inl older ↦ ground (arith, ih y ys e)
      | inr newest ↦ ground (
        arith,
        ih y ys e,
        count_mono (λ x. ltb o.created x.created) (λ x. ltb y.created x.created) os
            (λ x t. ground arith),
      )
    ]

-- The head of the object, and that no version of it is newer.
abbrev pub HasNewestHead : ℕ → String → List ObjectVersion → Type 0
HasNewestHead b key os =
    (h : ObjectVersion) × (select (head_of b key) os ≡ h ∷ [])
    × (count (λ x. ltb h.created x.created && of_key b key x) os ≡ 0)

-- What `restore_head` does after a head is gone.
abbrev pub Restored : ObjectVersion → Session → Type 0
Restored o t =
    ((restore_head o t ≡ (ok tt, t)) × (select (of_key o.bucket_id o.key) t.objects ≡ []))
    ⊎ ((l : ObjectVersion) × (restore_head o t
          ≡ (ok tt, with_objects t (update (has_version l.version_id) crowned t.objects)))
        × IsIn l t.objects
        × (of_key o.bucket_id o.key l ≡ true)
        × (count (λ x. ltb l.created x.created && of_key o.bucket_id o.key x) t.objects ≡ 0))

insert-ne-nil : (o : ObjectVersion) (os : List ObjectVersion) → insert_sorted newer o os ≡ [] → ⊥
insert-ne-nil o [] h = cc
insert-ne-nil o (y ∷ ys) h = ground arith

order_by-nil : (os : List ObjectVersion) → order_by newer os ≡ [] → os ≡ []
order_by-nil [] h = refl
order_by-nil (o ∷ os) h = absurd (insert-ne-nil o (order_by newer os) h)

pub Restored-cases : (o : ObjectVersion) (t : Session) → o.is_head ≡ true → Restored o t
unfolding restore_head get_versions Bucket.as_bucket_id ◌>>=◌
Restored-cases o t head =
    let p = of_key o.bucket_id o.key in
    let found = select p t.objects in
    elim (List-cases (order_by newer found)) [
      | inl e ↦ inl (ground (arith, e), order_by-nil found e)
      | inr (l, r, e) ↦
          let inside : IsIn l found =
            IsIn-order_by newer l found
              (subst (λ (ys : List ObjectVersion). IsIn l ys) (sym e) (inl refl)) in
          inr (
            l,
            ground (arith, e),
            IsIn-select p l t.objects inside,
            select-IsIn_passes p l t.objects inside,
            sym (count-select (λ x. ltb l.created x.created) p t.objects)
                ∙ newest_first found l r e,
          )
    ]

-- Where the head of an object is removed, its newest version that is left becomes the head, and if
-- none is left the object is gone.
abbrev pub Succeeded : ℕ → String → List ObjectVersion → Type 0
Succeeded b key os = (select (of_key b key) os ≡ []) ⊎ HasNewestHead b key os

pub headless_after :
    (o : ObjectVersion) (os : List ObjectVersion)
    → IsIn o os
    → o.is_head ≡ true
    → count (head_of o.bucket_id o.key) os ≤ 1
    → count (head_of o.bucket_id o.key) (delete (is_row_of o) os) ≡ 0
headless_after o os inside head unique = omega (
  arith,
  count-delete (is_row_of o) (head_of o.bucket_id o.key) os,
  count-IsIn (λ x. head_of o.bucket_id o.key x && is_row_of o x) o os inside
      (ground (arith, ==_refl o.bucket_id, ==_refl o.version_id, eq_refl o.key)),
)

module _ (o : ObjectVersion) (os : List ObjectVersion) (l : ObjectVersion)
    (unique : (v : ℕ) → count (has_version v) os ≤ 1)
    (heads : (b : ℕ) (key : String) → count (head_of b key) os ≤ 1)
    (headless : count (head_of o.bucket_id o.key) os ≡ 0) (inside : IsIn l os)
    (own : of_key o.bucket_id o.key l ≡ true) where
  present : 1 ≤ count (λ x. has_version l.version_id x && of_key o.bucket_id o.key x) os
  present =
      count-IsIn (λ x. has_version l.version_id x && of_key o.bucket_id o.key x) l os inside
        (ground (arith, ==_refl l.version_id))

  pub crowned-unique_heads :
      (c : ℕ) (k : String) → count (head_of c k) (update (has_version l.version_id) crowned os) ≤ 1
  crowned-unique_heads c k = elim (Bool-cases (o.bucket_id == c && str_eq o.key k)) [
    | inl same ↦
        let one = crowned_one o.bucket_id o.key l os (unique l.version_id) headless present in
        let same_bucket : o.bucket_id ≡ c = ground (arith, ==→eq o.bucket_id c) in
        let same_key : o.key ≡ k = ground (arith, eq_iff o.key k) in
        rw (← same_bucket) (rw (← same_key) (omega (arith, one)))
    | inr other ↦ omega (
      arith,
      heads c k,
      crowned_other o.bucket_id o.key l os (unique l.version_id) headless present c k other,
    )
  ]

  pub crowned-HasNewestHead :
      count (λ x. ltb l.created x.created && of_key o.bucket_id o.key x) os ≡ 0
      → HasNewestHead o.bucket_id o.key (update (has_version l.version_id) crowned os)
  crowned-HasNewestHead newest = (
    crowned l,
    select-update_new (has_version l.version_id) (head_of o.bucket_id o.key) crowned os l
        (select-count_zero (head_of o.bucket_id o.key) os headless)
        (select-IsIn (has_version l.version_id) l os inside (==_refl l.version_id)
          (unique l.version_id))
        (ground arith),
    count-update_same (has_version l.version_id)
          (λ x. ltb l.created x.created && of_key o.bucket_id o.key x) crowned os (λ x. refl)
        ∙ newest,
  )
