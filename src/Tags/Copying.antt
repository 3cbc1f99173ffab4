-- ===== src/Tags/Copying.antt =====
-- The tags of a version are a dictionary too, and copying a list of tags sets each of them.
use invenio_files_rest.Prelude.{
  ℕ, String, Bool, ◌≡◌, refl, ap, ◌∙◌, ◌≤◌, true, false, Option, some, List, [], ◌∷◌, ◌&&◌, ◌==◌,
  str_eq, arith, ==→eq, eq_iff, if◌then◌else◌, inl, inr, Bool-cases,
}
use invenio_files_rest.Prelude.Tables.{
  select, count, update, select_cases, select-update_self, select-update_other, count-select_nil,
  count-update_same,
}
use invenio_files_rest.Schema.{ObjectVersionTag}
use invenio_files_rest.Session.{Session, Result, ok, pure, ◌>>=◌, for_each}
use invenio_files_rest.Tags.OfVersion.{
  is_tag, is_short, get_value, get, create, create_or_update, copy_all,
}

-- What `get_value` returns.
abbrev pub value : ℕ → String → Session → Result (Option String)
value v key s = (get_value v key s).0

-- The primary key: no version has a key twice.
abbrev pub HasUniqueTags : Session → Type 0
HasUniqueTags s = (v : ℕ) (key : String) → count (is_tag v key) s.object_tags ≤ 1

-- The keys and values of the tags are short enough.
abbrev pub AllShort : List ObjectVersionTag → Type 0
AllShort [] = Unit
AllShort (t ∷ ts) = ((is_short t.key ≡ true) × (is_short t.value ≡ true)) × AllShort ts

-- The value that the last tag with the key has, and otherwise the one that was there.
abbrev pub last_value :
    String → List ObjectVersionTag → Result (Option String) → Result (Option String)
last_value k [] before = before
last_value k (t ∷ ts) before =
    last_value k ts (if str_eq t.key k then ok (some t.value) else before)

abbrev with_tags : Session → List ObjectVersionTag → Session
with_tags s ts = record s { db = record s.db { object_tags = ts } }

abbrev new_tag : ℕ → String → String → ObjectVersionTag
new_tag v key x = record { version_id = v; key = key; value = x }

abbrev set_value : String → ObjectVersionTag → ObjectVersionTag
set_value x t = record t { value = x }

created_tag :
    (v : ℕ) (key x : String) (s : Session)
    → is_short key ≡ true
    → is_short x ≡ true
    → select (is_tag v key) s.object_tags ≡ []
    → create_or_update v key x s ≡ (ok tt, with_tags s (new_tag v key x ∷ s.object_tags))
unfolding create_or_update get create ◌>>=◌
created_tag v key x s a b h = ground arith

updated_tag :
    (v : ℕ) (key x : String) (s : Session) (t : ObjectVersionTag)
    → is_short key ≡ true
    → is_short x ≡ true
    → select (is_tag v key) s.object_tags ≡ t ∷ []
    → create_or_update v key x s
      ≡ (ok tt, with_tags s (update (is_tag v key) (set_value x) s.object_tags))
unfolding create_or_update get ◌>>=◌
updated_tag v key x s t a b h = ground arith

other_tag :
    (b : ℕ) (key : String) (c : ℕ) (k : String) (t : ObjectVersionTag)
    → (b == c && str_eq key k) ≡ false
    → is_tag b key t ≡ true
    → is_tag c k t ≡ false
other_tag b key c k t other h = ground (arith, ==→eq t.version_id b, eq_iff t.key key)

same_tag :
    (b : ℕ) (key : String) (c : ℕ) (k : String)
    → (b == c && str_eq key k) ≡ true
    → (b ≡ c) × (key ≡ k)
same_tag b key c k h = (ground (arith, ==→eq b c), ground (arith, eq_iff key k))

-- What one call of `create_or_update` does.
abbrev Sets : ℕ → String → String → Session → Type 0
Sets v key x s =
    ((create_or_update v key x s).0 ≡ ok tt)
    × HasUniqueTags (create_or_update v key x s).1
    × ((c : ℕ) (k : String)
        → value c k (create_or_update v key x s).1
          ≡ (if v == c && str_eq key k then ok (some x) else value c k s))

one_set :
    (v : ℕ) (key x : String) (s : Session)
    → is_short key ≡ true
    → is_short x ≡ true
    → HasUniqueTags s
    → Sets v key x s
unfolding get_value get ◌>>=◌
one_set v key x s a b unique = elim (select_cases (is_tag v key) s.object_tags (unique v key)) [
  | inl missing ↦ rw (created_tag v key x s a b missing) (
    refl,
    (λ c k. elim (Bool-cases (v == c && str_eq key k)) [
      | inl same ↦
          ground
            (arith, same_tag v key c k same, count-select_nil (is_tag v key) s.object_tags missing)
      | inr differ ↦ ground (arith, differ, unique c k)
    ]),
    (λ c k. elim (Bool-cases (v == c && str_eq key k)) [
      | inl same ↦ ground (arith, missing, same_tag v key c k same)
      | inr differ ↦ ground (arith, differ)
    ]),
  )
  | inr (t, found) ↦ rw (updated_tag v key x s t a b found) (
    refl,
    (λ c k.
        rw (count-update_same (is_tag v key) (is_tag c k) (set_value x) s.object_tags (λ y. refl))
          (unique c k)),
    (λ c k. elim (Bool-cases (v == c && str_eq key k)) [
      | inl same ↦ ground (
        arith,
        same_tag v key c k same,
        select-update_self (is_tag v key) (set_value x) s.object_tags t (λ y. refl) found,
      )
      | inr differ ↦ ground (
        arith,
        differ,
        select-update_other (is_tag v key) (is_tag c k) (set_value x) s.object_tags
            (λ y h. (other_tag v key c k y differ h, other_tag v key c k y differ h)),
      )
    ]),
  )
]

copy_next :
    (v : ℕ) (t : ObjectVersionTag) (ts : List ObjectVersionTag) (s : Session)
    → (create_or_update v t.key t.value s).0 ≡ ok tt
    → copy_all v (t ∷ ts) s ≡ copy_all v ts (create_or_update v t.key t.value s).1
unfolding copy_all for_each ◌>>=◌
copy_next v t ts s done = ground (arith, done)

value_step :
    (same other : Bool) (x : String) (before : Result (Option String)) (k : String)
    (ts : List ObjectVersionTag)
    → (if same
        then last_value k ts (if same && other then ok (some x) else before)
        else (if same && other then ok (some x) else before))
      ≡ (if same then last_value k ts (if other then ok (some x) else before) else before)
value_step true other x before k ts = refl
value_step false other x before k ts = refl

-- Where no version has a key twice, copying a list of tags whose keys and values are shorter than
-- 256 characters to a version, as copy does after it has created the version, returns, leaves no
-- version with a key twice, gives the version for each key the value of the last tag with it in
-- the list, or what it had before where there is none, and leaves the tags of every other version
-- as they were.
pub copy_all_lem :
    (v : ℕ) (ts : List ObjectVersionTag) (s : Session)
    → AllShort ts
    → HasUniqueTags s
    → ((copy_all v ts s).0 ≡ ok tt)
      × HasUniqueTags (copy_all v ts s).1
      × ((c : ℕ) (k : String)
          → value c k (copy_all v ts s).1
            ≡ (if v == c then last_value k ts (value c k s) else value c k s))
unfolding copy_all for_each pure
copy_all_lem v [] s short unique = (
  refl,
  unique,
  λ c k. elim (Bool-cases (v == c)) [ inl same ↦ rw same refl | inr other ↦ rw other refl ],
)
copy_all_lem v (t ∷ ts) s (here, more) unique =
    let (done, kept, set) = one_set v t.key t.value s here.0 here.1 unique in
    let (all, end, seen) = copy_all_lem v ts (create_or_update v t.key t.value s).1 more kept in
    rw (copy_next v t ts s done) (
      all,
      end,
      λ c k.
          seen c k
          ∙ ap (λ r. if v == c then last_value k ts r else r) (set c k)
          ∙ value_step (v == c) (str_eq t.key k) t.value (value c k s) k ts,
    )
