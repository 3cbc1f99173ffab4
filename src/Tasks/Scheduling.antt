-- ===== src/Tasks/Scheduling.antt =====
-- `schedule_checksum_verification` of tasks.py: a batch of the files that were checked the longest
-- ago. Times are in seconds. The source divides as floats and rounds up: below 2 ** 53 that is the
-- division of natural numbers.
use invenio_files_rest.Prelude.{
  ℕ, suc, ◌+◌, ◌-◌, ◌*◌, ◌/◌, Bool, false, Option, none, some, List, [], ◌∷◌, ◌&&◌, ◌==◌, leb, ltb,
  not, is_some, if◌then◌else◌, ◌||◌,
}
use invenio_files_rest.Prelude.Sorting.{order_by}
use invenio_files_rest.Prelude.Tables.{length}
use invenio_files_rest.Errors.{assertion_error, type_error, zero_division_error, plain_exception}
use invenio_files_rest.Schema.{FileInstance, verify_checksum as check_file}
use invenio_files_rest.Session.{
  ⊤, Action, Result, ok, err, pure, raise, gets, lift, ◌>>=◌, ◌>>◌, raise_if, delay, for_each,
}
use invenio_files_rest.Tasks.{take}

-- `order_by(coalesce(last_check_at, date.min))`: files that were never checked come first.
abbrev checked_before : FileInstance → FileInstance → Bool
checked_before f g = ltb (time f.last_check_at) (time g.last_check_at)
  where
    time : Option ℕ → ℕ
    time none = 0
    time (some t) = suc t

-- `int(math.ceil(total / batches))`
unfoldable pub per_batch : ℕ → ℕ → Result ℕ
per_batch total batches =
    if batches == 0 then err zero_division_error else ok ((total + (batches - 1)) / batches)

-- The bound of a batch; 0 asks for an equal share of the total.
abbrev bound_of : ℕ → ℕ → ℕ → Action ℕ
bound_of bound total batches = do
  share ← lift (per_batch total batches)
  pure (if bound == 0 then share else bound)

abbrev pub total_size : List FileInstance → ℕ
total_size [] = 0
total_size (f ∷ fs) = f.size + total_size fs

-- `if max_count is not None:`
unfoldable pub limit_count : Option ℕ → ℕ → List FileInstance → Action (List FileInstance)
unfolding per_batch
limit_count none batches files = pure files
limit_count (some max_count) batches files = do
  n ← bound_of max_count (length files) batches
  pure (take n files)

-- `if max_size is not None:`; the sum over an empty table is `None`, which cannot be divided.
unfoldable pub size_bound : Option ℕ → ℕ → Action (Option ℕ)
unfolding per_batch
size_bound none batches = pure none
size_bound (some max_size) batches = do
  files ← gets (λ s. s.files)
  raise_if (length files == 0) type_error
  n ← bound_of max_size (total_size files) batches
  pure (some n)

abbrev pub is_reached : Option ℕ → ℕ → Bool
is_reached none size = false
is_reached (some max_size) size = not (max_size == 0) && leb max_size size

-- The loop over the files: it ends after the file that reaches the bound.
unfoldable pub batch : Option ℕ → ℕ → List FileInstance → List FileInstance
batch bound size [] = []
batch bound size (f ∷ fs) =
    let rest = batch bound (size + f.size) fs in
    f ∷ (if is_reached bound (size + f.size) then [] else rest)

-- The interval that is given, or that of the task's entry in the Celery configuration; an interval
-- of 0 counts as none.
unfoldable pub interval_or : Option ℕ → Option ℕ → Action ℕ
interval_or none none = raise (plain_exception "No batch_interval could be decided")
interval_or none (some t) =
    raise_if (t == 0) (plain_exception "No batch_interval could be decided") >>= λ _. pure t
interval_or (some t) beat =
    raise_if (t == 0) (plain_exception "No batch_interval could be decided") >>= λ _. pure t

abbrev frequency_or : Option ℕ → ℕ
frequency_or none = 30 * 24 * 3600
frequency_or (some t) = t

-- `schedule_checksum_verification`; `beat` is the interval of the Celery configuration and
-- `files_query` the function that is imported by name. Each task is sent with `pessimistic` and
-- without `throws`.
unfoldable pub schedule_checksum_verification :
    Option ℕ
    → (List FileInstance → List FileInstance)
    → Option ℕ
    → Option ℕ
    → Option ℕ
    → Option ℕ
    → Action ⊤
unfolding interval_or limit_count size_bound batch for_each
schedule_checksum_verification beat files_query frequency batch_interval max_count max_size = do
  raise_if (not (is_some max_count || is_some max_size)) assertion_error
  interval ← interval_or batch_interval beat
  files ← gets (λ s. order_by checked_before (files_query s.files))
  limited ← limit_count max_count (frequency_or frequency / interval) files
  bound ← size_bound max_size (frequency_or frequency / interval)
  for_each (batch bound 0 limited) (λ f. delay (check_file f.id))
