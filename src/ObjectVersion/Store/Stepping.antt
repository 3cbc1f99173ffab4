-- ===== src/ObjectVersion/Store/Stepping.antt =====
-- What a change needs, and what it leaves as it was.
use invenio_files_rest.Prelude.{
  ℕ, suc, String, none, some, List, [], ◌∷◌, ◌≡◌, refl, sym, ap, ◌∙◌, ◌⊎◌, inl, inr, ◌==◌, ltb,
  arith, Bool-cases, Option-cases, ==→eq,
}
use mathlib.Core.Path.{subst}
use native.Mathlib.Nat.{le_trans}
use Prim.Native.String.{count as text_count}
use invenio_files_rest.Prelude.Tables.{
  select, select-update_nil, select-update_self, select-update_other, select_cases, update,
  count_mono, select-passes,
}
use invenio_files_rest.Schema.{ObjectVersion, Bucket as BucketRow}
use invenio_files_rest.Session.{Session, ok, one_or_none, ◌>>=◌}
use invenio_files_rest.FileInstance
use invenio_files_rest.Bucket
use invenio_files_rest.Bucket.{instance_of}
use invenio_files_rest.ObjectVersion.Reading.{get, wanted, head_of, has_version}
use invenio_files_rest.ObjectVersion.Heads.{IsWellFormed, unhead, demoted}
use invenio_files_rest.ObjectVersion.Steps.{IsReady}
use invenio_files_rest.ObjectVersion.Effects.{head}
use invenio_files_rest.ObjectVersion.Store.{
  Change, put, erase, HasFile, Accepts, IsAllowed, IsServing,
}

pub ready :
    (b : ℕ) (key : String) (s : Session)
    → IsServing s
    → (a : Accepts b key s) → IsReady b key none a.0 s
ready b key s w (r, there, unlocked, fits) = record {
  bucket = there;
  unlocked = unlocked;
  fits = fits;
  fresh = w.fresh 0;
  valid = w.valid;
}

-- The visible version, if there is one, and its file.
pub visible_cases :
    (b : ℕ) (key : String) (s : Session)
    → IsWellFormed s.db
    → (head b key s ≡ ok none)
      ⊎ ((o : ObjectVersion) × (i : ℕ) × (head b key s ≡ ok (some o))
          × (o.file_id ≡ some i)
          × (select (wanted b key none) s.objects ≡ o ∷ []))
unfolding get ◌>>=◌
visible_cases b key s w =
    elim (select_cases (wanted b key none) s.objects (
      le_trans (count_mono (wanted b key none) (head_of b key) s.objects (λ x h. ground arith))
        (w.unique_heads b key))) [
          | inl e ↦ inl (ap (λ l. (one_or_none l s).0) e)
          | inr (o, e) ↦
              let passes = select-passes (wanted b key none) s.objects o [] e in
              elim (Option-cases o.file_id) [
                | inl unset ↦ ground (arith, unset, passes)
                | inr (i, set) ↦ inr (o, i, ap (λ l. (one_or_none l s).0) e, set, e)
              ]
        ]

pub fresh_after :
    (b : ℕ) (key : String) (o : ObjectVersion) (s : Session)
    → IsServing s
    → o.version_id ≡ s.uuids 0
    → (n : ℕ) → select (has_version (s.uuids (suc n))) (o ∷ demoted b key s.objects) ≡ []
fresh_after b key o s w drawn n =
    let others =
      select-update_nil (head_of b key) (has_version (s.uuids (suc n))) unhead s.objects (λ x. refl)
        (w.fresh (suc n)) in
    ground (arith, others, ==→eq o.version_id (s.uuids (suc n)), w.distinct 0 (suc n), drawn)

pub HasFile-after : (i : ℕ) (s t : Session) → t.files ≡ s.files → HasFile i s → HasFile i t
HasFile-after i s t files (g, file) = (g, ap (select (FileInstance.has_id i)) files ∙ file)

module _ (b : ℕ) (f : BucketRow → BucketRow) (same_id : (r : BucketRow) → (f r).id ≡ r.id)
    (same_lock : (r : BucketRow) → (f r).locked ≡ r.locked) where
  bucket_after :
      (c : ℕ) (r : BucketRow) (bs : List BucketRow)
      → select (Bucket.has_id c) bs ≡ r ∷ []
      → (q : BucketRow) × (select (Bucket.has_id c) (update (Bucket.has_id b) f bs) ≡ q ∷ [])
        × (q.locked ≡ r.locked)
  bucket_after c r bs there = elim (Bool-cases (b == c)) [
    | inl same ↦ (
      f r,
      subst (λ (x : ℕ). select (Bucket.has_id x) (update (Bucket.has_id b) f bs) ≡ f r ∷ [])
          (==→eq b c same)
          (select-update_self (Bucket.has_id b) f bs r (λ y. ap (λ v. v == b) (same_id y))
            (subst (λ (x : ℕ). select (Bucket.has_id x) bs ≡ r ∷ []) (sym (==→eq b c same)) there)),
      same_lock r,
    )
    | inr other ↦ (
      r,
      select-update_other (Bucket.has_id b) (Bucket.has_id c) f bs
            (λ x h. ground (arith, same_id x, ==→eq x.id b))
          ∙ there,
      refl,
    )
  ]

  Accepts-after :
      (c : ℕ) (key : String) (s t : Session)
      → t.buckets ≡ update (Bucket.has_id b) f s.buckets
      → t.config ≡ s.config
      → Accepts c key s
      → Accepts c key t
  Accepts-after c key s t buckets config (r, there, unlocked, fits) =
      let (q, found, lock) = bucket_after c r s.buckets there in
      (
        q,
        ap (select (Bucket.has_id c)) buckets ∙ found,
        lock ∙ unlocked,
        ap (λ g. ltb g.object_key_max_len (text_count key)) config ∙ fits,
      )

  pub IsAllowed-after :
      (x : Change) (s t : Session)
      → t.buckets ≡ update (Bucket.has_id b) f s.buckets
      → t.config ≡ s.config
      → t.files ≡ s.files
      → IsAllowed x s
      → IsAllowed x t
  IsAllowed-after (put c key i) s t buckets config files (a, file) =
      (Accepts-after c key s t buckets config a, HasFile-after i s t files file)
  IsAllowed-after (erase c key) s t buckets config files a =
      Accepts-after c key s t buckets config a
