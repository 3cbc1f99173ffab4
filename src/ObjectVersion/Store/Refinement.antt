-- ===== src/ObjectVersion/Store/Refinement.antt =====
-- Each change does to the store what it should, and so does a sequence of them.
use invenio_files_rest.Prelude.{
  ℕ, suc, String, Bool, true, false, Option, none, some, List, [], ◌∷◌, ◌≡◌, refl, sym, ap, ◌∙◌,
  ◌⊎◌, inl, inr, ◌&&◌, ◌==◌, str_eq, if◌then◌else◌, arith, Bool-cases, ==→eq, eq_iff,
}
use mathlib.Core.Path.{subst}
use invenio_files_rest.Prelude.Int.{pos, ◌+ℤ◌, ◌-ℤ◌}
use invenio_files_rest.Schema.{ObjectVersion}
use invenio_files_rest.Session.{Session, Result, ok}
use invenio_files_rest.Bucket.{instance_of}
use invenio_files_rest.ObjectVersion.Invariant.{create-Keeps}
use invenio_files_rest.ObjectVersion.Operations.{delete-object-Keeps}
use invenio_files_rest.ObjectVersion.Steps.{create_with_file_lem}
use invenio_files_rest.ObjectVersion.Effects.{
  head, get-create, get-delete, delete_lem, delete_missing,
}
use invenio_files_rest.ObjectVersion.Store.{
  Change, put, erase, perform, perform_all, Store, apply, apply_all, visible_file, store, HasFile,
  IsAllowed, AllAllowed, IsServing, Returns, AllReturn,
}
use invenio_files_rest.ObjectVersion.Store.Stepping.{
  ready, visible_cases, fresh_after, HasFile-after, IsAllowed-after,
}

-- The store after a change, and that the session goes on serving.
abbrev Refines : Change → Session → Type 0
Refines x s =
    Returns x s
    × IsServing (perform x s)
    × ((c : ℕ) (k : String) → store (perform x s) c k ≡ apply x (store s) c k)
    × ((y : Change) → IsAllowed y s → IsAllowed y (perform x s))

set_or :
    (t : Bool) (o : ObjectVersion) (i : ℕ) (r : Result (Option ObjectVersion))
    → o.file_id ≡ some i
    → visible_file (if t then ok (some o) else r) ≡ (if t then some i else visible_file r)
set_or true o i r e = e
set_or false o i r e = refl

clear_or :
    (t : Bool) (r : Result (Option ObjectVersion))
    → visible_file (if t then ok none else r) ≡ (if t then none else visible_file r)
clear_or true r = refl
clear_or false r = refl

set_cases :
    (t : Bool) (i j : ℕ) (o : Option ℕ)
    → (if t then some i else o) ≡ some j
    → (i ≡ j) ⊎ (o ≡ some j)
set_cases true i j o e = inl (ground (arith, e))
set_cases false i j o e = inr e

clear_cases : (t : Bool) (j : ℕ) (o : Option ℕ) → (if t then none else o) ≡ some j → o ≡ some j
clear_cases true j o e = ground (arith, e)
clear_cases false j o e = e

put-Refines :
    (b : ℕ) (key : String) (i : ℕ) (s : Session)
    → IsServing s
    → IsAllowed (put b key i) s
    → Refines (put b key i) s
unfolding perform
put-Refines b key i s w (a, (f, file)) =
    let z = ready b key s w a in
    let outcome = create_with_file_lem b key i f none none a.0 s z file in
    let run = ap (λ p. p.1) outcome in
    let seen : (c : ℕ) (k : String)
        → store (perform (put b key i) s) c k ≡ apply (put b key i) (store s) c k =
      λ c k.
        ap visible_file (get-create b key i f none none a.0 s z file c k)
        ∙ set_or (b == c && str_eq key k) _ i (head c k s) refl in
    let files : (perform (put b key i) s).files ≡ s.files = ap (λ t. t.files) run in
    (
      (_, ap (λ p. p.0) outcome),
      record {
        valid = (create-Keeps (instance_of b) key (some i) none none).at s w.valid;
        fresh = λ n. rw run (fresh_after b key _ s w refl n);
        distinct = λ m n e.
            let same =
              w.distinct (suc m) (suc n) (subst (λ (t : Session). t.uuids m ≡ t.uuids n) run e) in
            omega (arith, same);
        linked = λ c k j e.
            HasFile-after j s (perform (put b key i) s) files
              (elim (set_cases (b == c && str_eq key k) i j (store s c k) (sym (seen c k) ∙ e)) [
                | inl same ↦ subst (λ (n : ℕ). HasFile n s) same (f, file)
                | inr old ↦ w.linked c k j old
              ]);
      },
      seen,
      λ y allowed.
          IsAllowed-after b (λ r. record r { size = r.size +ℤ pos f.size }) (λ r. refl) (λ r. refl)
            y s (perform (put b key i) s) (ap (λ t. t.buckets) run) (ap (λ t. t.config) run) files
            allowed,
    )

same_store :
    (b c : ℕ) (key k : String) (s : Session)
    → head b key s ≡ ok none
    → store s c k ≡ (if b == c && str_eq key k then none else store s c k)
same_store b c key k s missing = elim (Bool-cases (b == c && str_eq key k)) [
  | inl same ↦
      let here : store s c k ≡ none =
        subst (λ (n : ℕ). store s n k ≡ none) (==→eq b c (ground (arith, same)))
          (subst (λ (j : String). store s b j ≡ none) ((eq_iff key k).0 (ground (arith, same)))
            (ap visible_file missing)) in
      rw same here
  | inr other ↦ rw other refl
]

erase-Refines :
    (b : ℕ) (key : String) (s : Session)
    → IsServing s
    → IsAllowed (erase b key) s
    → Refines (erase b key) s
unfolding perform
erase-Refines b key s w a = elim (visible_cases b key s w.valid) [
  | inl missing ↦
      let outcome = delete_missing b key s missing in
      let run : perform (erase b key) s ≡ s = ap (λ p. p.1) outcome in
      (
        (none, ap (λ p. p.0) outcome),
        subst IsServing (sym run) w,
        λ c k. ap (λ t. store t c k) run ∙ same_store b c key k s missing,
        λ y allowed. subst (IsAllowed y) (sym run) allowed,
      )
  | inr (o, i, visible, set, only) ↦
      let z = ready b key s w a in
      let (f, file) = w.linked b key i (ap visible_file visible ∙ set) in
      let outcome = delete_lem b key o i f a.0 s z only set file in
      let run = ap (λ p. p.1) outcome in
      let seen : (c : ℕ) (k : String)
          → store (perform (erase b key) s) c k ≡ apply (erase b key) (store s) c k =
        λ c k.
          ap visible_file ((get-delete b key o i f a.0 s z visible set file).0 c k)
          ∙ clear_or (b == c && str_eq key k) (head c k s) in
      let files : (perform (erase b key) s).files ≡ s.files = ap (λ t. t.files) run in
      (
        (_, ap (λ p. p.0) outcome),
        record {
          valid = (delete-object-Keeps (instance_of b) key).at s w.valid;
          fresh = λ n. rw run (fresh_after b key _ s w refl n);
          distinct = λ m n e.
              let same =
                w.distinct (suc m) (suc n) (subst (λ (t : Session). t.uuids m ≡ t.uuids n) run e) in
              omega (arith, same);
          linked = λ c k j e. HasFile-after j s (perform (erase b key) s) files (
              w.linked c k j
                (clear_cases (b == c && str_eq key k) j (store s c k) (sym (seen c k) ∙ e)));
        },
        seen,
        λ y allowed.
            IsAllowed-after b (λ r. record r { size = r.size -ℤ pos f.size }) (λ r. refl)
              (λ r. refl) y s (perform (erase b key) s) (ap (λ t. t.buckets) run)
              (ap (λ t. t.config) run) files allowed,
      )
]

perform-Refines : (x : Change) (s : Session) → IsServing s → IsAllowed x s → Refines x s
perform-Refines (put b key i) s w a = put-Refines b key i s w a
perform-Refines (erase b key) s w a = erase-Refines b key s w a

AllAllowed-after :
    (xs : List Change) (s t : Session)
    → ((y : Change) → IsAllowed y s → IsAllowed y t)
    → AllAllowed xs s
    → AllAllowed xs t
AllAllowed-after [] s t h a = tt
AllAllowed-after (x ∷ xs) s t h (a, more) = (h x a, AllAllowed-after xs s t h more)

apply_same :
    (x : Change) (m n : Store)
    → ((c : ℕ) (k : String) → m c k ≡ n c k)
    → (c : ℕ) (k : String) → apply x m c k ≡ apply x n c k
apply_same (put b key i) m n h c k = ap (λ r. if b == c && str_eq key k then some i else r) (h c k)
apply_same (erase b key) m n h c k = ap (λ r. if b == c && str_eq key k then none else r) (h c k)

apply_all_same :
    (xs : List Change) (m n : Store)
    → ((c : ℕ) (k : String) → m c k ≡ n c k)
    → (c : ℕ) (k : String) → apply_all xs m c k ≡ apply_all xs n c k
apply_all_same [] m n h c k = h c k
apply_all_same (x ∷ xs) m n h c k =
    apply_all_same xs (apply x m) (apply x n) (apply_same x m n h) c k

-- Any sequence of ObjectVersion.create with a file and ObjectVersion.delete, in any buckets,
-- implements the map from bucket and key to a file that the first sets and the second clears:
-- begun in a session with well-formed versions, new identifiers that are distinct and unused, and
-- visible versions whose files exist, and with buckets that exist and are unlocked, keys that fit
-- and files that exist, every operation returns, and what ObjectVersion.get then finds for each
-- object is what the map says. The session at the end serves further operations.
pub perform_all_lem :
    (xs : List Change) (s : Session)
    → IsServing s
    → AllAllowed xs s
    → AllReturn xs s
      × IsServing (perform_all xs s)
      × ((c : ℕ) (k : String) → store (perform_all xs s) c k ≡ apply_all xs (store s) c k)
unfolding perform_all
perform_all_lem [] s w allowed = (tt, w, λ c k. refl)
perform_all_lem (x ∷ xs) s w (a, more) =
    let (returned, serving, seen, goes_on) = perform-Refines x s w a in
    let (rest, end, same) =
      perform_all_lem xs (perform x s) serving (AllAllowed-after xs s (perform x s) goes_on more) in
    (
      (returned, rest),
      end,
      λ c k. same c k ∙ apply_all_same xs (store (perform x s)) (apply x (store s)) seen c k,
    )
