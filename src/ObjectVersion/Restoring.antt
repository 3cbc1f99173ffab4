-- ===== src/ObjectVersion/Restoring.antt =====
-- What readers see after an old version is restored, whatever becomes of its tags.
use invenio_files_rest.Prelude.{
  ℕ, String, ◌≡◌, refl, sym, ap, ◌∙◌, false, none, some, List, [], ◌∷◌, ◌&&◌, ◌==◌, str_eq, arith,
  if◌then◌else◌,
}
use invenio_files_rest.Prelude.Tables.{select}
use invenio_files_rest.Schema.{
  Bucket as BucketRow, FileInstance as FileRow, ObjectVersion, ObjectVersionTag, Db,
}
use invenio_files_rest.Session.{
  Session, Action, ok, pure, modify_object_tags, one_or_none, ◌>>=◌, ◌>>◌,
}
use invenio_files_rest.Session.Keeps.{Keeps, keeps_rules}
use invenio_files_rest.FileInstance
use invenio_files_rest.Bucket
use invenio_files_rest.Bucket.{instance_of}
use invenio_files_rest.Tags.OfVersion
use invenio_files_rest.ObjectVersion.Reading.{get, wanted, has_version, get_tags}
use invenio_files_rest.ObjectVersion.Changing.{copy, restore}
use invenio_files_rest.ObjectVersion.Steps.{
  IsReady, new_version, created, grown, create_with_file_lem,
}
use invenio_files_rest.ObjectVersion.Effects.{head, get-create}

HasObjects : List ObjectVersion → Db → Type 0
HasObjects os db = db.objects ≡ os

tags-Keeps :
    (os : List ObjectVersion) (f : List ObjectVersionTag → List ObjectVersionTag)
    → Keeps (HasObjects os) (modify_object_tags f)
unfolding modify_object_tags HasObjects
tags-Keeps os f = record { at = λ s w. w }

copy_all-Keeps :
    (os : List ObjectVersion) (v : ℕ) (ts : List ObjectVersionTag)
    → Keeps (HasObjects os) (OfVersion.copy_all v ts)
unfolding OfVersion.copy_all
copy_all-Keeps os v ts = search (keeps_rules, tags-Keeps) depth 16

-- The tags are copied last.
abbrev tagged : ℕ → List ObjectVersionTag → Action ℕ
tagged new tags = OfVersion.copy_all new tags >> pure new

tagged-objects :
    (new : ℕ) (tags : List ObjectVersionTag) (s : Session)
    → (tagged new tags s).1.objects ≡ s.objects
unfolding HasObjects
tagged-objects new tags s = go.at s refl
  where
    go : Keeps (HasObjects s.objects) (tagged new tags)
    go = search (keeps_rules, copy_all-Keeps) depth 6

-- Reading depends on the versions only.
head_same : (c : ℕ) (k : String) (s t : Session) → s.objects ≡ t.objects → head c k s ≡ head c k t
unfolding get ◌>>=◌
head_same c k s t h =
    outcome (select (wanted c k none) s.objects)
    ∙ ap (λ (os : List ObjectVersion). (one_or_none (select (wanted c k none) os) t).0) h
  where
    outcome : (l : List ObjectVersion) → (one_or_none l s).0 ≡ (one_or_none l t).0
    outcome [] = refl
    outcome (x ∷ []) = refl
    outcome (x ∷ y ∷ l) = refl

-- The session once the new version is there.
abbrev renewed : ObjectVersion → ℕ → ℕ → Session → Session
renewed o i n s = created o.bucket_id o.key (some i) none none (grown o.bucket_id n s.buckets) s

restore_lem :
    (v : ℕ) (o : ObjectVersion) (i : ℕ) (f : FileRow) (r : BucketRow) (s : Session)
    → IsReady o.bucket_id o.key none r s
    → select (has_version v) s.objects ≡ o ∷ []
    → o.is_head ≡ false
    → o.file_id ≡ some i
    → select (FileInstance.has_id i) s.files ≡ f ∷ []
    → restore v s
      ≡ tagged (s.uuids 0) (select (λ t. t.version_id == v) s.object_tags) (renewed o i f.size s)
unfolding restore copy get_tags Bucket.as_bucket ◌>>=◌
restore_lem v o i f r s w version old linked file =
    ground (arith, create_with_file_lem o.bucket_id o.key i f none none r s w file)

-- In a session that is ready for a new version of its object, restoring a version that is no head
-- and has a file that exists makes a new version with that file the visible one of the object,
-- and every other object keeps its own, also where copying the tags raises.
pub head-restore :
    (v : ℕ) (o : ObjectVersion) (i : ℕ) (f : FileRow) (r : BucketRow) (s : Session)
    → IsReady o.bucket_id o.key none r s
    → select (has_version v) s.objects ≡ o ∷ []
    → o.is_head ≡ false
    → o.file_id ≡ some i
    → select (FileInstance.has_id i) s.files ≡ f ∷ []
    → (c : ℕ) (k : String)
    → head c k (restore v s).1 ≡ (
        if o.bucket_id == c && str_eq o.key k
        then ok (some (new_version o.bucket_id o.key (some i) none none s))
        else head c k s)
head-restore v o i f r s w version old linked file c k =
    let t = renewed o i f.size s in
    let ts = select (λ t. t.version_id == v) s.object_tags in
    ap (λ p. head c k p.1) (restore_lem v o i f r s w version old linked file)
    ∙ head_same c k (tagged (s.uuids 0) ts t).1 t (tagged-objects (s.uuids 0) ts t)
    ∙ sym (ap (λ p. head c k p.1) (create_with_file_lem o.bucket_id o.key i f none none r s w file))
    ∙ get-create o.bucket_id o.key i f none none r s w file c k
