-- ===== src/Session.antt =====
-- The database session: what a method sees and changes, the exceptions that it may raise, and the
-- savepoint `db.session.begin_nested()`, whose exit by an exception restores the tables.
pub mod Keeps
pub mod Outcomes
pub mod Reads
use invenio_files_rest.Prelude.{
  ℕ, suc, Bool, Option, none, some, List, [], ◌∷◌, ◌++◌, if◌then◌else◌,
}
use invenio_files_rest.Errors.{Error, multiple_results, object_deleted}
use invenio_files_rest.Schema.{
  Db, Config, Location, Bucket, BucketTag, FileInstance, ObjectVersion, ObjectVersionTag,
  MultipartObject, Part, Task,
}

-- `uuids` and `times` are what the next calls of `uuid.uuid4()` and `datetime.utcnow()` return.
pub record Session : Type 0 where
  pub db : Db
  pub open db use *
  pub config : Config
  pub uuids : ℕ → ℕ
  pub times : ℕ → ℕ
  -- The tasks that were sent off, the newest first.
  pub queue : List Task

pub data Result (A : Type 0) : Type 0 where
  ok : A → Result A
  err : Error → Result A

abbrev pub ⊤ : Type 0
⊤ = Unit

-- A method call. What was written before an exception stays in the session.
abbrev pub Action : Type 0 → Type 0
Action A = Session → Result A × Session

module _ {A : Type 0} where
  unfoldable pub pure : A → Action A
  pure a s = (ok a, s)

  unfoldable pub raise : Error → Action A
  raise e s = (err e, s)

  unfoldable pub gets : (Session → A) → Action A
  gets f s = (ok (f s), s)

  unfoldable pub or_raise : Option A → Error → Action A
  or_raise none e s = (err e, s)
  or_raise (some a) e s = (ok a, s)

  unfoldable pub lift : Result A → Action A
  lift r s = (r, s)

  -- `query.one_or_none()`.
  unfoldable pub one_or_none : List A → Action (Option A)
  one_or_none [] s = (ok none, s)
  one_or_none (x ∷ []) s = (ok (some x), s)
  one_or_none (x ∷ y ∷ l) s = (err multiple_results, s)

  -- The row behind an ORM object, whose attributes are read from the session.
  unfoldable pub row_of : List A → Action A
  row_of [] s = (err object_deleted, s)
  row_of (x ∷ l) s = (ok x, s)

  -- `with db.session.begin_nested():`. Identifiers and times that were drawn stay drawn.
  unfoldable pub begin_nested : Action A → Action A
  begin_nested m s =
      let (r, s') = m s in elim r [ ok a ↦ (ok a, s') | err e ↦ (err e, record s' { db = s.db }) ]

module _ {A B : Type 0} where
  -- A test for `None`.
  unfoldable pub if_some : Option A → (A → Action B) → Action B → Action B
  if_some none found missing = missing
  if_some (some a) found missing = found a

-- A chain of pure steps that may raise.
abbrev pub and_then : {A B : Type 0} → Result A → (A → Result B) → Result B
and_then (ok a) f = f a
and_then (err e) f = err e

unfoldable pub raise_if : Bool → Error → Action ⊤
raise_if c e s = (if c then err e else ok tt, s)

unfoldable pub uuid4 : Action ℕ
uuid4 s = (ok (s.uuids 0), record s { uuids = λ n. s.uuids (suc n) })

unfoldable pub utcnow : Action ℕ
utcnow s = (ok (s.times 0), record s { times = λ n. s.times (suc n) })

-- `task.delay(...)`
unfoldable pub delay : Task → Action ⊤
delay t s = (ok tt, record s { queue = t ∷ s.queue })

unfoldable pub modify_locations : (List Location → List Location) → Action ⊤
modify_locations f s = (ok tt, record s { db = record s.db { locations = f s.locations } })

unfoldable pub modify_buckets : (List Bucket → List Bucket) → Action ⊤
modify_buckets f s = (ok tt, record s { db = record s.db { buckets = f s.buckets } })

unfoldable pub modify_files : (List FileInstance → List FileInstance) → Action ⊤
modify_files f s = (ok tt, record s { db = record s.db { files = f s.files } })

unfoldable pub modify_objects : (List ObjectVersion → List ObjectVersion) → Action ⊤
modify_objects f s = (ok tt, record s { db = record s.db { objects = f s.objects } })

unfoldable pub modify_object_tags : (List ObjectVersionTag → List ObjectVersionTag) → Action ⊤
modify_object_tags f s = (ok tt, record s { db = record s.db { object_tags = f s.object_tags } })

unfoldable pub modify_bucket_tags : (List BucketTag → List BucketTag) → Action ⊤
modify_bucket_tags f s = (ok tt, record s { db = record s.db { bucket_tags = f s.bucket_tags } })

unfoldable pub modify_multiparts : (List MultipartObject → List MultipartObject) → Action ⊤
modify_multiparts f s = (ok tt, record s { db = record s.db { multiparts = f s.multiparts } })

unfoldable pub modify_parts : (List Part → List Part) → Action ⊤
modify_parts f s = (ok tt, record s { db = record s.db { parts = f s.parts } })

-- To unfold it is to unfold the actions above too.
infixl 5 ◌>>=◌ ◌>>◌
unfoldable pub ◌>>=◌ : {A B : Type 0} → Action A → (A → Action B) → Action B
unfolding pure raise gets or_raise lift one_or_none row_of begin_nested if_some raise_if uuid4
    utcnow modify_locations modify_buckets modify_files modify_objects modify_object_tags
    modify_bucket_tags modify_multiparts modify_parts delay
◌>>=◌ m f s = let (r, s') = m s in elim r [ ok a ↦ f a s' | err e ↦ (err e, s') ]

abbrev pub ◌>>◌ : {A B : Type 0} → Action A → Action B → Action B
m >> k = m >>= λ _. k

-- `for x in xs: body(x)`.
unfoldable pub for_each : {A B : Type 0} → List A → (A → Action B) → Action ⊤
for_each [] body = pure tt
for_each (x ∷ xs) body = body x >>= λ _. for_each xs body

-- A loop that appends to a list.
unfoldable pub collect : {A C : Type 0} → List A → (A → Action (List C)) → Action (List C)
collect [] body = pure []
collect (x ∷ xs) body = body x >>= λ c. collect xs body >>= λ more. pure (c ++ more)
