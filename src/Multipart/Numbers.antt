-- ===== src/Multipart/Numbers.antt =====
-- No upload has two parts of the same number, whatever is done to its parts.
use invenio_files_rest.Prelude.{
  ℕ, String, Bool, true, false, Option, none, List, [], ◌∷◌, ◌≡◌, refl, ◌≤◌, arith, ◌&&◌, ◌==◌, inl,
  inr, Bool-cases, ==→eq,
}
use mathlib.Core.Path.{subst, sym}
use native.Mathlib.Nat.{le_trans}
use invenio_files_rest.Prelude.Int.{ℤ, pos, negsuc}
use invenio_files_rest.Prelude.Tables.{
  count, select, some_row, some_row_cases, update, delete as delete_rows, count-update_same,
  count-delete_le, count-select_nil,
}
use invenio_files_rest.Schema.{
  Db, Part, MultipartObject, ObjectVersion, Bucket as BucketRow, FileInstance as FileRow,
}
use invenio_files_rest.Session.{
  Session, ◌>>=◌, modify_parts, modify_multiparts, modify_objects, modify_buckets, modify_files,
}
use invenio_files_rest.Session.Keeps.{Keeps, keeps_rules}
use invenio_files_rest.Storage.{Backend}
use invenio_files_rest.Storage.Writing.{Stream}
use invenio_files_rest.Bucket.{BucketArg}
use invenio_files_rest.Multipart.Parts as Parts
use invenio_files_rest.Multipart.Parts.{is_part, part_of}
use invenio_files_rest.ObjectVersion.Creating as Versions
use invenio_files_rest.ObjectVersion.Framing.{IsFramed, create-Keeps}

abbrev pub IsNumbered : Db → Type 0
IsNumbered d = (u n : ℕ) → count (is_part u n) d.parts ≤ 1

files-Keeps : (f : List FileRow → List FileRow) → Keeps IsNumbered (modify_files f)
unfolding modify_files
files-Keeps f = record { at = λ s w. w }

buckets-Keeps : (f : List BucketRow → List BucketRow) → Keeps IsNumbered (modify_buckets f)
unfolding modify_buckets
buckets-Keeps f = record { at = λ s w. w }

objects-Keeps : (f : List ObjectVersion → List ObjectVersion) → Keeps IsNumbered (modify_objects f)
unfolding modify_objects
objects-Keeps f = record { at = λ s w. w }

multiparts-Keeps :
    (f : List MultipartObject → List MultipartObject) → Keeps IsNumbered (modify_multiparts f)
unfolding modify_multiparts
multiparts-Keeps f = record { at = λ s w. w }

delete-Keeps : (p : Part → Bool) → Keeps IsNumbered (modify_parts (delete_rows p))
unfolding modify_parts
delete-Keeps p = record {
  at = λ s w u n. le_trans (count-delete_le p (is_part u n) s.parts) (w u n);
}

checksum-Keeps :
    (p : Part → Bool) (c : Option String)
    → Keeps IsNumbered (modify_parts (update p (λ q. record q { checksum = c })))
unfolding modify_parts
checksum-Keeps p c = record {
  at = λ s w u n.
      rw (count-update_same p (is_part u n) (λ q. record q { checksum = c }) s.parts (λ q. refl))
        (w u n);
}

ruleset number_rules = (
  keeps_rules, files-Keeps, buckets-Keeps, objects-Keeps, multiparts-Keeps, delete-Keeps,
  checksum-Keeps,
)

numbers-IsFramed : IsFramed IsNumbered
numbers-IsFramed = record { files = files-Keeps; objects = objects-Keeps; buckets = buckets-Keeps }

version-Keeps :
    (arg : BucketArg) (key : String) (i : Option ℕ) (m : Option String) (v : Option ℕ)
    → Keeps IsNumbered (Versions.create arg key i m v)
version-Keeps = create-Keeps IsNumbered numbers-IsFramed

-- A part is added only where there is none with its number.
one_more :
    (u n v k : ℕ) (ps : List Part)
    → select (is_part u n) ps ≡ []
    → count (is_part v k) ps ≤ 1
    → count (is_part v k) (record { upload_id = u; part_number = n; checksum = none } ∷ ps) ≤ 1
one_more u n v k ps absent w = elim (Bool-cases (u == v && n == k)) [
  | inl same ↦ ground (arith, count-select_nil (is_part u n) ps absent, ==→eq u v, ==→eq n k)
  | inr differ ↦ ground (arith, differ, w)
]

added :
    (u n : ℕ) (s : Session)
    → some_row (select (is_part u n) s.parts) ≡ false
    → (Parts.add_part u n s).1.db.parts
      ≡ record { upload_id = u; part_number = n; checksum = none } ∷ s.parts
unfolding ◌>>=◌
added u n s absent = ground (arith, absent)

refused :
    (u n : ℕ) (s : Session)
    → some_row (select (is_part u n) s.parts) ≡ true
    → (Parts.add_part u n s).1.db.parts ≡ s.parts
unfolding ◌>>=◌
refused u n s present = ground (arith, present)

add_part-Keeps : (u n : ℕ) → Keeps IsNumbered (Parts.add_part u n)
add_part-Keeps u n = record {
  at = λ s w v k. elim (some_row_cases (select (is_part u n) s.parts)) [
    | inl (absent, none_there) ↦
        subst (λ (ps : List Part). count (is_part v k) ps ≤ 1) (sym (added u n s absent))
          (one_more u n v k s.parts none_there (w v k))
    | inr present ↦
        subst (λ (ps : List Part). count (is_part v k) ps ≤ 1) (sym (refused u n s present)) (w v k)
  ];
}

make-Keeps : (u : ℕ) (n : ℤ) → Keeps IsNumbered (Parts.create u n)
unfolding Parts.create
make-Keeps u (negsuc n) = search number_rules
make-Keeps u (pos n) = search (number_rules, add_part-Keeps) depth 16

pub part-Keeps : (u : ℕ) (n : ℤ) → Keeps IsNumbered (Parts.get_or_create u n)
unfolding Parts.get_or_create Parts.get_or_none
part-Keeps u n = search (number_rules, make-Keeps) depth 16

pub fill-Keeps :
    (backend : Backend) (u n : ℕ) (stream : Stream)
    → Keeps IsNumbered (Parts.set_contents backend u n stream)
unfolding Parts.set_contents
fill-Keeps backend u n stream = search number_rules depth 16
