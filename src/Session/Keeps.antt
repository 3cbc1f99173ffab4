-- ===== src/Session/Keeps.antt =====
-- Invariants of the tables, with a rule for each way to build an action: an action keeps `P` if it
-- holds of the tables afterwards, whether the action returns or raises.
use mathlib.Core.Path.{subst}
use invenio_files_rest.Prelude.{
  ◌++◌, if◌then◌else◌, true, false, sym, ap, Bool, Option, none, some, List, [], ◌∷◌, ◌≡◌,
}
use invenio_files_rest.Errors.{Error}
use invenio_files_rest.Schema.{Task, Db}
use invenio_files_rest.Session.{
  Session, Action, Result, ok, err, pure, raise, gets, or_raise, lift, one_or_none, row_of,
  begin_nested, if_some, raise_if, uuid4, collect, utcnow, delay, ◌>>=◌, for_each,
}

pub record Keeps {A : Type 0} (P : Db → Type 0) (m : Action A) : Type 0 where
  pub at : (s : Session) → P s.db → P (m s).1.db

-- For a first step whose outcome is known.
pub bind-known :
    (P : Db → Type 0) {A B : Type 0} (m : Action A) (f : A → Action B) (s : Session) {a : A}
    {t : Session}
    → m s ≡ (ok a, t)
    → P (f a t).1.db
    → P ((m >>= f) s).1.db
unfolding ◌>>=◌
bind-known P m f s e h = subst (λ p. P (◌>>=◌ (λ _. p) f s).1.db) (sym e) h

pub bind-ok :
    {A B : Type 0} (m : Action A) (f : A → Action B) (s : Session) {a : A} {t : Session}
    → m s ≡ (ok a, t)
    → (m >>= f) s ≡ f a t
unfolding ◌>>=◌
bind-ok m f s e = ap (λ p. ◌>>=◌ (λ _. p) f s) e

-- For an action whose state is known.
module _ {P : Db → Type 0} {A B : Type 0} where
  pub bind-at :
      (m : Action A) (f : A → Action B) (s : Session)
      → P (m s).1.db
      → ((a : A) → Keeps P (f a))
      → P ((m >>= f) s).1.db
  unfolding ◌>>=◌
  bind-at m f s h hf = go (m s) h
    where
      go : (p : Result A × Session) → P p.1.db → P (◌>>=◌ (λ _. p) f s).1.db
      go (ok a, t) k = (hf a).at t k
      go (err e, t) k = k

  pub Keeps-bind :
      (m : Action A) (f : A → Action B) → Keeps P m → ((a : A) → Keeps P (f a)) → Keeps P (m >>= f)
  Keeps-bind m f hm hf = record { at = λ s w. bind-at m f s (hm.at s w) hf }

module _ {P : Db → Type 0} {A : Type 0} where
  pub Keeps-pure : (a : A) → Keeps P (pure a)
  unfolding pure
  Keeps-pure a = record { at = λ s w. w }

  pub Keeps-raise : (e : Error) → Keeps P (raise {A = A} e)
  unfolding raise
  Keeps-raise e = record { at = λ s w. w }

  pub Keeps-gets : (f : Session → A) → Keeps P (gets f)
  unfolding gets
  Keeps-gets f = record { at = λ s w. w }

  pub Keeps-lift : (r : Result A) → Keeps P (lift r)
  unfolding lift
  Keeps-lift r = record { at = λ s w. w }

  pub Keeps-or_raise : (o : Option A) (e : Error) → Keeps P (or_raise o e)
  unfolding or_raise
  Keeps-or_raise none e = record { at = λ s w. w }
  Keeps-or_raise (some a) e = record { at = λ s w. w }

  pub Keeps-one_or_none : (xs : List A) → Keeps P (one_or_none xs)
  unfolding one_or_none
  Keeps-one_or_none [] = record { at = λ s w. w }
  Keeps-one_or_none (x ∷ []) = record { at = λ s w. w }
  Keeps-one_or_none (x ∷ y ∷ l) = record { at = λ s w. w }

  pub Keeps-row_of : (xs : List A) → Keeps P (row_of xs)
  unfolding row_of
  Keeps-row_of [] = record { at = λ s w. w }
  Keeps-row_of (x ∷ l) = record { at = λ s w. w }

  -- A savepoint that is rolled back leaves the tables as they were.
  pub Keeps-begin_nested : (m : Action A) → Keeps P m → Keeps P (begin_nested m)
  unfolding begin_nested
  Keeps-begin_nested m h = record { at = λ s w. go s w (m s) (h.at s w) }
    where
      go :
          (s : Session)
          → P s.db
          → (p : Result A × Session) → P p.1.db
          → P (begin_nested (λ _. p) s).1.db
      go s w (ok a, t) k = k
      go s w (err e, t) k = w

module _ {P : Db → Type 0} where
  pub Keeps-raise_if : (c : Bool) (e : Error) → Keeps P (raise_if c e)
  unfolding raise_if
  Keeps-raise_if c e = record { at = λ s w. w }

  pub Keeps-uuid4 : Keeps P uuid4
  unfolding uuid4
  Keeps-uuid4 = record { at = λ s w. w }

  pub Keeps-utcnow : Keeps P utcnow
  unfolding utcnow
  Keeps-utcnow = record { at = λ s w. w }

module _ {P : Db → Type 0} {A B : Type 0} where
  pub Keeps-for_each :
      (xs : List A) (body : A → Action B)
      → ((a : A) → Keeps P (body a))
      → Keeps P (for_each xs body)
  unfolding for_each
  Keeps-for_each [] body h = Keeps-pure tt
  Keeps-for_each (x ∷ xs) body h =
      Keeps-bind (body x) (λ _. for_each xs body) (h x) (λ _. Keeps-for_each xs body h)

  pub Keeps-if_some :
      (o : Option A) (found : A → Action B) (missing : Action B)
      → ((a : A) → Keeps P (found a))
      → Keeps P missing
      → Keeps P (if_some o found missing)
  unfolding if_some
  Keeps-if_some none found missing h k = k
  Keeps-if_some (some a) found missing h k = h a

module _ {P : Db → Type 0} where
  pub Keeps-delay : (t : Task) → Keeps P (delay t)
  unfolding delay
  Keeps-delay t = record { at = λ s w. w }

module _ {P : Db → Type 0} {A : Type 0} where
  pub Keeps-if : (b : Bool) (m n : Action A) → Keeps P m → Keeps P n → Keeps P (if b then m else n)
  Keeps-if true m n h k = h
  Keeps-if false m n h k = k

module _ {P : Db → Type 0} {A C : Type 0} where
  pub Keeps-collect :
      (xs : List A) (body : A → Action (List C))
      → ((a : A) → Keeps P (body a))
      → Keeps P (collect xs body)
  unfolding collect
  Keeps-collect [] body h = Keeps-pure []
  Keeps-collect (x ∷ xs) body h =
      Keeps-bind (body x) (λ c. collect xs body >>= λ more. pure (c ++ more)) (h x)
        λ c.
          Keeps-bind (collect xs body) (λ more. pure (c ++ more)) (Keeps-collect xs body h)
            λ more. Keeps-pure (c ++ more)

pub ruleset keeps_rules = (
  Keeps-bind, Keeps-if_some, Keeps-for_each, Keeps-collect, Keeps-delay, Keeps-if, Keeps-pure,
  Keeps-raise, Keeps-gets, Keeps-lift, Keeps-or_raise, Keeps-one_or_none, Keeps-row_of,
  Keeps-begin_nested, Keeps-raise_if, Keeps-uuid4, Keeps-utcnow,
)
