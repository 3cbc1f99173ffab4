-- ===== src/Session/Outcomes.antt =====
-- What an action may leave: the configuration and the buckets as they were, and a session of which
-- something is known when it returns.
use mathlib.Core.Path.{subst}
use invenio_files_rest.Prelude.{◌≡◌, refl, ap, ◌∙◌, Bool, Option, none, some, List}
use invenio_files_rest.Schema.{Bucket, Config, ObjectVersion}
use invenio_files_rest.Session.{
  Session, Action, Result, ok, err, pure, gets, or_raise, one_or_none, row_of, raise_if, uuid4,
  utcnow, begin_nested, if_some, modify_objects, ◌>>=◌,
}
use invenio_files_rest.Session.Reads.{
  Reads, Reads-pure, Reads-gets, Reads-or_raise, Reads-one_or_none, Reads-row_of, Reads-raise_if,
}
use invenio_files_rest.Errors.{Error}

abbrev pub kept : Session → Config × List Bucket
kept s = (s.config, s.buckets)

-- The configuration and the buckets stay.
pub record Stays {A : Type 0} (m : Action A) : Type 0 where
  pub at : (s : Session) → kept (m s).1 ≡ kept s

pub Stays-bind :
    {A B : Type 0} (m : Action A) (f : A → Action B)
    → Stays m
    → ((a : A) → Stays (f a))
    → Stays (m >>= f)
unfolding ◌>>=◌
Stays-bind {A = A} {B = B} m f hm hf = record { at = λ s. go s (m s) (hm.at s) }
  where
    go :
        (s : Session) (p : Result A × Session)
        → kept p.1 ≡ kept s
        → kept (◌>>=◌ (λ _. p) f s).1 ≡ kept s
    go s (ok a, t) h = (hf a).at t ∙ h
    go s (err e, t) h = h

pub Stays-if_some :
    {A B : Type 0} (o : Option A) (found : A → Action B) (missing : Action B)
    → ((a : A) → Stays (found a))
    → Stays missing
    → Stays (if_some o found missing)
unfolding if_some
Stays-if_some none found missing h k = k
Stays-if_some (some a) found missing h k = h a

pub Stays-begin_nested : {A : Type 0} (m : Action A) → Stays m → Stays (begin_nested m)
unfolding begin_nested
Stays-begin_nested {A = A} m h = record { at = λ s. go s (m s) (h.at s) }
  where
    go :
        (s : Session) (p : Result A × Session)
        → kept p.1 ≡ kept s
        → kept (begin_nested (λ _. p) s).1 ≡ kept s
    go s (ok a, t) k = k
    go s (err e, t) k = ap (λ (q : Config × List Bucket). (q.0, s.buckets)) k

pub Stays-Reads : {A : Type 0} (m : Action A) → Reads m → Stays m
Stays-Reads m h = record { at = λ s. ap kept (h.at s) }

module _ {A : Type 0} where
  pub Stays-pure : (a : A) → Stays (pure a)
  Stays-pure a = Stays-Reads (pure a) (Reads-pure a)

  pub Stays-gets : (f : Session → A) → Stays (gets f)
  Stays-gets f = Stays-Reads (gets f) (Reads-gets f)

  pub Stays-or_raise : (o : Option A) (e : Error) → Stays (or_raise o e)
  Stays-or_raise o e = Stays-Reads (or_raise o e) (Reads-or_raise o e)

  pub Stays-one_or_none : (xs : List A) → Stays (one_or_none xs)
  Stays-one_or_none xs = Stays-Reads (one_or_none xs) (Reads-one_or_none xs)

  pub Stays-row_of : (xs : List A) → Stays (row_of xs)
  Stays-row_of xs = Stays-Reads (row_of xs) (Reads-row_of xs)

pub Stays-raise_if : (c : Bool) (e : Error) → Stays (raise_if c e)
Stays-raise_if c e = Stays-Reads (raise_if c e) (Reads-raise_if c e)

pub Stays-uuid4 : Stays uuid4
unfolding uuid4
Stays-uuid4 = record { at = λ s. refl }

pub Stays-utcnow : Stays utcnow
unfolding utcnow
Stays-utcnow = record { at = λ s. refl }

pub Stays-objects : (f : List ObjectVersion → List ObjectVersion) → Stays (modify_objects f)
unfolding modify_objects
Stays-objects f = record { at = λ s. refl }

-- What is known of the session where the action returns.
pub record Yields {A : Type 0} (Q : A → Session → Type 0) (m : Action A) : Type 0 where
  pub at : (s : Session) (a : A) (t : Session) → m s ≡ (ok a, t) → Q a t

-- The same of what an action has returned.
abbrev pub Holds : {A : Type 0} → (A → Session → Type 0) → Result A × Session → Type 0
Holds Q (ok a, t) = Q a t
Holds Q (err e, t) = Unit

pub Yields-Holds :
    {A : Type 0} (Q : A → Session → Type 0) (m : Action A)
    → ((s : Session) → Holds Q (m s))
    → Yields Q m
Yields-Holds Q m h = record { at = λ s a t e. subst (Holds Q) e (h s) }

pub Yields-bind :
    {A B : Type 0} (Q : B → Session → Type 0) (m : Action A) (f : A → Action B)
    → ((a : A) → Yields Q (f a))
    → Yields Q (m >>= f)
unfolding ◌>>=◌
Yields-bind {A = A} Q m f h = record { at = λ s b u. go s (m s) b u }
  where
    go :
        (s : Session) (p : Result A × Session) (b : _) (u : Session)
        → ◌>>=◌ (λ _. p) f s ≡ (ok b, u)
        → Q b u
    go s (ok a, t) b u e = (h a).at t b u e
    go s (err x, t) b u e = cc

pub Yields-begin_nested :
    {A : Type 0} (Q : A → Session → Type 0) (m : Action A) → Yields Q m → Yields Q (begin_nested m)
unfolding begin_nested
Yields-begin_nested {A = A} Q m h = record { at = λ s a t. go s (m s) (h.at s) a t }
  where
    go :
        (s : Session) (p : Result A × Session)
        → ((a : A) (t : Session) → p ≡ (ok a, t) → Q a t)
        → (a : A) (t : Session) → begin_nested (λ _. p) s ≡ (ok a, t)
        → Q a t
    go s (ok a, t) k b u e = k b u e
    go s (err x, t) k b u e = cc

-- For a first step of which something is known where it returns.
pub bind_cases :
    {A B : Type 0} (P : Session → Type 0) (m : Action A) (f : A → Action B) (s : Session)
    → P (m s).1
    → ((a : A) (t : Session) → m s ≡ (ok a, t) → P (f a t).1)
    → P ((m >>= f) s).1
unfolding ◌>>=◌
bind_cases {A = A} P m f s h k = go (m s) h k
  where
    go :
        (p : Result A × Session)
        → P p.1
        → ((a : A) (t : Session) → p ≡ (ok a, t) → P (f a t).1)
        → P (◌>>=◌ (λ _. p) f s).1
    go (ok a, t) here later = later a t refl
    go (err e, t) here later = here

pub ruleset stays_rules = (
  Stays-bind, Stays-if_some, Stays-begin_nested, Stays-pure, Stays-gets, Stays-or_raise,
  Stays-one_or_none, Stays-row_of, Stays-raise_if, Stays-uuid4, Stays-utcnow, Stays-objects,
)
