-- ===== src/Serializer/Waiting.antt =====
-- `wait_for_taskresult` of serializer.py: whitespace is sent until a task is ready.
use invenio_files_rest.Prelude.{
  ℕ, zero, suc, ◌+◌, ◌≡◌, refl, ◌<◌, ◌⊎◌, inl, inr, Bool, true, false, Option, none, some, List, [],
  ◌∷◌, ◌++◌, arith, ap, ◌∙◌, Option-cases,
}

-- What the generator yields.
pub data Output : Type 0 where
  whitespace : Output
  content : Output
  job_failed : Output
  job_timed_out : Output

-- The answer of a task that is ready: whether it was successful.
abbrev pub finished : Bool → Output
finished true = content
finished false = job_failed

-- `_whitespace_waiting`: `n` rounds are left, and this is round `i`, in which the task is not ready
-- or ready with success or failure. A round that finds it ready is the last.
unfoldable pub wait_for_taskresult : ℕ → ℕ → (ℕ → Option Bool) → List Output
wait_for_taskresult zero i poll = job_timed_out ∷ []
wait_for_taskresult (suc n) i poll = elim (poll i) [
  | some done ↦ finished done ∷ []
  | none ↦ whitespace ∷ wait_for_taskresult n (suc i) poll
]

abbrev pub spaces : ℕ → List Output
spaces zero = []
spaces (suc n) = whitespace ∷ spaces n

-- The task is not ready in the `k` rounds from round `i` on.
abbrev pub NotReady : ℕ → ℕ → (ℕ → Option Bool) → Type 0
NotReady zero i poll = Unit
NotReady (suc k) i poll = (poll i ≡ none) × NotReady k (suc i) poll

-- Waiting for a task yields one whitespace for each round in which the task is not ready, and
-- then exactly one more item: the content or the report of a failure where the task is ready
-- within the rounds, and the report of the time-out after as many whitespaces as there are
-- rounds.
pub wait_for_taskresult_lem :
    (n i : ℕ) (poll : ℕ → Option Bool)
    → (k : ℕ) × (last : Output) × (wait_for_taskresult n i poll ≡ spaces k ++ last ∷ [])
      × NotReady k i poll
      × (((k ≡ n) × (last ≡ job_timed_out))
          ⊎ ((k < n) × (done : Bool) × (poll (i + k) ≡ some done) × (last ≡ finished done)))
unfolding wait_for_taskresult
wait_for_taskresult_lem zero i poll = (0, job_timed_out, refl, tt, inl (refl, refl))
wait_for_taskresult_lem (suc n) i poll = elim (Option-cases (poll i)) [
  | inr (done, e) ↦ (
    0,
    finished done,
    ground (arith, e),
    tt,
    inr (omega arith, done, ap poll (omega arith) ∙ e, refl),
  )
  | inl wait ↦
      let (k, last, run, idle, outcome) = wait_for_taskresult_lem n (suc i) poll in
      (
        suc k,
        last,
        ground (arith, wait, run),
        (wait, idle),
        elim outcome [
          | inl (all, out) ↦ inl (omega (arith, all), out)
          | inr (early, done, e, out) ↦
              inr (omega (arith, early), done, ap poll (omega arith) ∙ e, out)
        ],
      )
]
