-- ===== src/Admin.antt =====
-- admin.py: the validator of the form for locations and the action that sends fixity checks off. What
-- identifies a file in the form is read by `uuid.UUID`, a parameter.
mod Tests
use Prim.Native.String.{count as text_count}
use invenio_files_rest.Prelude.{
  ℕ, suc, ◌+◌, String, Bool, true, false, Option, none, some, List, [], ◌∷◌, ◌++◌, ◌≡◌, sym, ap,
  ◌∙◌, refl, ◌==◌, ◌≤◌, ◌⊎◌, inl, inr, not, arith, ltb, if◌then◌else◌, Bool-cases,
}
use invenio_files_rest.Prelude.Tables.{select, length}
use invenio_files_rest.Errors.{Error, value_error}
use invenio_files_rest.Schema.{Task, verify_checksum, FileInstance as FileRow}
use invenio_files_rest.Session.{
  ⊤, Session, Action, Result, ok, err, pure, raise, gets, lift, one_or_none, or_raise, delay, ◌>>=◌,
  ◌>>◌, if_some,
}
use invenio_files_rest.FileInstance as Files
use invenio_files_rest.Location.{slug_match, codes, validate_name}

-- `require_slug`; `ValidationError` is a `ValueError`.
unfoldable pub require_slug : String → Result ⊤
unfolding slug_match
require_slug name =
    if not (slug_match (codes name)) then err (value_error "Invalid location name.") else ok tt

-- A message that is flashed.
pub data Flash : Type 0 where
  sent_to_queue : Flash
  failed : Flash

-- `try: ... except Exception as exc: ...`
unfoldable pub except : {A : Type 0} → Action A → (Error → Action A) → Action A
except m handler s = let (r, t) = m s in elim r [ ok a ↦ (ok a, t) | err e ↦ handler e t ]

abbrev pub sent : List ℕ → List Task → List Task
sent [] q = q
sent (i ∷ is) q = sent is (verify_checksum i ∷ q)

abbrev pub with_sent : List ℕ → Session → Session
with_sent is s = record s { queue = sent is s.queue }

append-nil : {A : Type 0} (xs : List A) → xs ++ [] ≡ xs
append-nil [] = refl
append-nil (x ∷ xs) = ap (λ ys. x ∷ ys) (append-nil xs)

module _ (parse : String → Result ℕ) where
  -- One round of the loop.
  unfoldable pub send_check : String → Action ⊤
  send_check file_id = do
    i ← lift (parse file_id)
    found ← one_or_none (← gets (λ s. select (Files.has_id i) s.files))
    or_raise found (value_error "Cannot find file instance.")
    delay (verify_checksum i)

  -- The loop, with the number of checks that were sent.
  unfoldable pub send_checks : List String → ℕ → Action ℕ
  unfolding send_check
  send_checks [] count = pure count
  send_checks (x ∷ xs) count = send_check x >>= λ _. send_checks xs (suc count)

  -- `action_verify_checksum`; which exceptions `handle_view_exception` deals with is a parameter.
  unfoldable pub action_verify_checksum : (Error → Bool) → List String → Action (List Flash)
  unfolding send_checks except
  action_verify_checksum handles ids =
      except (send_checks ids 0 >>= λ count. pure (if count == 0 then [] else sent_to_queue ∷ []))
        (λ e. if handles e then pure (failed ∷ []) else raise e)

  -- The identifiers are read as these, each of a file in the table.
  abbrev pub AllFound : List String → List ℕ → List FileRow → Type 0
  AllFound [] [] fs = Unit
  AllFound (x ∷ xs) (i ∷ is) fs =
      (parse x ≡ ok i) × ((f : FileRow) × (select (Files.has_id i) fs ≡ f ∷ [])) × AllFound xs is fs
  AllFound _ _ fs = ⊥

  -- No file is found, for this reason.
  abbrev pub IsLost : String → Error → List FileRow → Type 0
  IsLost x e fs =
      (parse x ≡ err e)
      ⊎ ((i : ℕ) × (parse x ≡ ok i)
          × (select (Files.has_id i) fs ≡ [])
          × (e ≡ value_error "Cannot find file instance."))

  send_checks_found :
      (before rest : List String) (is : List ℕ) (n : ℕ) (s : Session)
      → AllFound before is s.files
      → send_checks (before ++ rest) n s ≡ send_checks rest (length before + n) (with_sent is s)
  unfolding send_checks ◌>>=◌
  send_checks_found [] rest [] n s a =
      let plus : n ≡ 0 + n = omega arith in ap (λ k. send_checks rest k s) plus
  send_checks_found [] rest (i ∷ is) n s a = elim a [ ]
  send_checks_found (x ∷ xs) rest [] n s a = elim a [ ]
  send_checks_found (x ∷ xs) rest (i ∷ is) n s (read, (f, here), more) = ground (
    arith,
    read,
    here,
    send_checks_found xs rest is (suc n) (record s { queue = verify_checksum i ∷ s.queue }) more,
  )

  send_check_lost :
      (x : String) (e : Error) (s : Session) → IsLost x e s.files → send_check x s ≡ (err e, s)
  unfolding send_check ◌>>=◌
  send_check_lost x e s (inl bad) = ground (arith, bad)
  send_check_lost x e s (inr (i, read, missing, why)) = ground (arith, read, missing, why)

  send_checks_all :
      (xs : List String) (is : List ℕ) (n : ℕ) (s : Session)
      → AllFound xs is s.files
      → send_checks xs n s ≡ (ok (length xs + n), with_sent is s)
  unfolding send_checks ◌>>=◌
  send_checks_all xs is n s a =
      ap (λ ys. send_checks ys n s) (sym (append-nil xs)) ∙ send_checks_found xs [] is n s a

  send_checks_lost :
      (before : List String) (is : List ℕ) (x : String) (after : List String) (e : Error)
      (s : Session)
      → AllFound before is s.files
      → IsLost x e s.files
      → send_checks (before ++ x ∷ after) 0 s ≡ (err e, with_sent is s)
  unfolding send_checks ◌>>=◌
  send_checks_lost before is x after e s a lost =
      send_checks_found before (x ∷ after) is 0 s a
      ∙ ap (λ p. ◌>>=◌ (λ _. p) (λ _. send_checks after (suc (length before + 0))) (with_sent is s))
          (send_check_lost x e (with_sent is s) lost)

  -- action_verify_checksum, for identifiers that each name a file, sends a check for each of them
  -- and, if there is one, says so. Where such identifiers are followed by one that cannot be read
  -- or names no file, the action reports a failure, or raises the exception where
  -- handle_view_exception does not deal with it, and the checks of the files before it have been
  -- sent nevertheless, those after it have not.
  pub action_verify_checksum_lem :
      (handles : Error → Bool) (before : List String) (is : List ℕ) (s : Session)
      → AllFound before is s.files
      → (action_verify_checksum handles before s
          ≡ (ok (if length before == 0 then [] else sent_to_queue ∷ []), with_sent is s))
        × ((x : String) (after : List String) (e : Error)
            → IsLost x e s.files
            → action_verify_checksum handles (before ++ x ∷ after) s
              ≡ (if handles e then ok (failed ∷ []) else err e, with_sent is s))
  unfolding action_verify_checksum except ◌>>=◌
  action_verify_checksum_lem handles before is s a = (
    ground (arith, send_checks_all before is 0 s a),
    λ x after e lost. elim (Bool-cases (handles e)) [
      | inl handled ↦ ground (arith, handled, send_checks_lost before is x after e s a lost)
      | inr open_ ↦ ground (arith, open_, send_checks_lost before is x after e s a lost)
    ],
  )
