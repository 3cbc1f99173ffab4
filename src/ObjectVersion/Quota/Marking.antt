-- ===== src/ObjectVersion/Quota/Marking.antt =====
-- `ObjectVersion.create` without a file: what becomes of the buckets, and the version that is there.
use invenio_files_rest.Prelude.{
  ℕ, String, Option, none, some, List, [], ◌∷◌, ◌≡◌, ==_refl, arith, Bool-cases, inl, inr, ltb,
}
use Prim.Native.String.{count as text_count}
use invenio_files_rest.Prelude.Tables.{select, some_row}
use invenio_files_rest.Schema.{ObjectVersion}
use invenio_files_rest.Session.{Session, Action, pure, if_some, raise_if, begin_nested, ◌>>◌, ◌>>=◌}
use invenio_files_rest.Errors.{bucket_locked}
use invenio_files_rest.Session.Outcomes.{
  Holds, Yields-Holds, Stays-pure, Stays, stays_rules, Yields, Yields-bind, Yields-begin_nested,
}
use invenio_files_rest.Bucket
use invenio_files_rest.Bucket.{instance_of}
use invenio_files_rest.ObjectVersion.Reading.{has_version}
use invenio_files_rest.ObjectVersion.Creating.{
  create, create_row, demote_latest, add_new, attach_file, validate_key,
}

attach-Stays : (v : ℕ) → Stays (attach_file v none)
unfolding attach_file if_some
attach-Stays v = Stays-pure tt

demote-Stays : (b : ℕ) (key : String) → Stays (demote_latest b key)
unfolding demote_latest
demote-Stays b key = search stays_rules depth 12

new-Stays : (b : ℕ) (key : String) (m : Option String) (v : Option ℕ) → Stays (add_new b key m v)
unfolding add_new validate_key
new-Stays b key m v = search stays_rules depth 20

row-Stays :
    (b : ℕ) (key : String) (m : Option String) (v : Option ℕ) → Stays (create_row b key none m v)
unfolding create_row
row-Stays b key m v = search (stays_rules, demote-Stays, new-Stays, attach-Stays) depth 20

pub create-Stays :
    (b : ℕ) (key : String) (m : Option String) (v : Option ℕ)
    → Stays (create (instance_of b) key none m v)
unfolding create
create-Stays b key m v = search (stays_rules, row-Stays) depth 20

-- The version that was created is in the table, in the bucket.
abbrev bucket_of : List ObjectVersion → Option ℕ
bucket_of [] = none
bucket_of (o ∷ os) = some o.bucket_id

abbrev pub IsIn : ℕ → ℕ → Session → Type 0
IsIn b v t = bucket_of (select (has_version v) t.objects) ≡ some b

pub IsIn-bucket :
    (b v : ℕ) (t : Session) (o : ObjectVersion) (os : List ObjectVersion)
    → IsIn b v t
    → select (has_version v) t.objects ≡ o ∷ os
    → o.bucket_id ≡ b
IsIn-bucket b v t o os h e = ground (arith, h, e)

abbrev mark : ℕ → String → Option String → Option ℕ → Action ℕ
mark b key m w = add_new b key m w >>= λ v. attach_file v none >>= λ _. pure v

mark-Holds :
    (b : ℕ) (key : String) (m : Option String) (w : Option ℕ) (s : Session)
    → Holds (IsIn b) (mark b key m w s)
unfolding add_new attach_file ◌>>=◌
mark-Holds b key m none s = elim (Bool-cases (ltb s.config.object_key_max_len (text_count key))) [
  | inl long ↦ rw (long, Holds) tt
  | inr short ↦ elim (Bool-cases (some_row (select (has_version (s.uuids 0)) s.objects))) [
    | inl there ↦ rw (short, Holds) (rw (there, Holds) tt)
    | inr fresh ↦ ground (arith, short, fresh, ==_refl (s.uuids 0))
  ]
]
mark-Holds b key m (some v) s =
    elim (Bool-cases (ltb s.config.object_key_max_len (text_count key))) [
      | inl long ↦ rw (long, Holds) tt
      | inr short ↦ elim (Bool-cases (some_row (select (has_version v) s.objects))) [
        | inl there ↦ rw (short, Holds) (rw (there, Holds) tt)
        | inr fresh ↦ ground (arith, short, fresh, ==_refl v)
      ]
    ]

mark-Yields :
    (b : ℕ) (key : String) (m : Option String) (w : Option ℕ) → Yields (IsIn b) (mark b key m w)
mark-Yields b key m w = Yields-Holds (IsIn b) (mark b key m w) (mark-Holds b key m w)

locked-Yields :
    (b : ℕ) (key : String) (m : Option String) (w : Option ℕ)
    → Yields (IsIn b) (
        Bucket.row b >>= λ r.
        raise_if r.locked bucket_locked >> begin_nested (create_row b key none m w))
unfolding create_row
locked-Yields b key m w = search (Yields-bind, Yields-begin_nested, mark-Yields) depth 9

pub create-Yields :
    (b : ℕ) (key : String) (m : Option String) (w : Option ℕ)
    → Yields (IsIn b) (create (instance_of b) key none m w)
unfolding create ◌>>=◌
create-Yields b key m w = record { at = λ s v t e. (locked-Yields b key m w).at s v t e }
