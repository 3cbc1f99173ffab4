-- ===== src/Session/Reads.antt =====
-- Actions that change nothing, and actions that raise and change nothing, with rules for `search`.
use invenio_files_rest.Prelude.{
  if◌then◌else◌, true, false, ◌≡◌, refl, ap, ◌∙◌, sym, ◌⊎◌, inl, inr, Bool, Option, none, some,
  List, [], ◌∷◌,
}
use mathlib.Core.Path.{subst}
use invenio_files_rest.Errors.{Error}
use invenio_files_rest.Schema.{Db}
use invenio_files_rest.Session.{
  Session, Action, Result, ok, err, pure, raise, gets, or_raise, lift, one_or_none, row_of, if_some,
  raise_if, ◌>>=◌,
}
use invenio_files_rest.Session.Keeps.{Keeps}

pub Result-cases :
    {A : Type 0} (r : Result A) → ((a : A) × (r ≡ ok a)) ⊎ ((e : Error) × (r ≡ err e))
Result-cases (ok a) = inl (a, refl)
Result-cases (err e) = inr (e, refl)

-- How an action ends.
pub Action-cases :
    {A : Type 0} (p : Result A × Session)
    → ((a : A) × (t : Session) × (p ≡ (ok a, t))) ⊎ ((e : Error) × (t : Session) × (p ≡ (err e, t)))
Action-cases (ok a, t) = inl (a, t, refl)
Action-cases (err e, t) = inr (e, t, refl)

pub record Reads {A : Type 0} (m : Action A) : Type 0 where
  pub at : (s : Session) → (m s).1 ≡ s

pub record Refuses {A : Type 0} (m : Action A) : Type 0 where
  pub at : (s : Session) → (e : Error) × (m s ≡ (err e, s))

module _ {A B : Type 0} where
  pub Reads-bind :
      (m : Action A) (f : A → Action B) → Reads m → ((a : A) → Reads (f a)) → Reads (m >>= f)
  unfolding ◌>>=◌
  Reads-bind m f hm hf = record { at = λ s. go s (m s) (hm.at s) }
    where
      go : (s : Session) (p : Result A × Session) → p.1 ≡ s → (◌>>=◌ (λ _. p) f s).1 ≡ s
      go s (ok a, t) h = (hf a).at t ∙ h
      go s (err e, t) h = h

  -- A later step is reached in the same session.
  pub reads_then :
      (P : Db → Type 0) (m : Action A) (f : A → Action B) (s : Session)
      → Reads m
      → P s.db
      → ((a : A) → P (f a s).1.db)
      → P ((m >>= f) s).1.db
  unfolding ◌>>=◌
  reads_then P m f s hm here hf = go (m s) (hm.at s)
    where
      go : (p : Result A × Session) → p.1 ≡ s → P (◌>>=◌ (λ _. p) f s).1.db
      go (ok a, t) h = subst (λ (u : Session). P (f a u).1.db) (sym h) (hf a)
      go (err e, t) h = subst (λ (u : Session). P u.db) (sym h) here

  -- What a later step may use of the result of an action that changes nothing.
  pub keeps_known :
      (P : Db → Type 0) (m : Action A) (f : A → Action B) (s : Session)
      → Reads m
      → P s.db
      → ((a : A) (t : Session) → m s ≡ (ok a, t) → P (f a s).1.db)
      → P ((m >>= f) s).1.db
  unfolding ◌>>=◌
  keeps_known P m f s hm here hf = go (m s) (hm.at s) (λ a t e. hf a t e)
    where
      go :
          (p : Result A × Session)
          → p.1 ≡ s
          → ((a : A) (t : Session) → p ≡ (ok a, t) → P (f a s).1.db)
          → P (◌>>=◌ (λ _. p) f s).1.db
      go (ok a, t) h k = subst (λ (u : Session). P (f a u).1.db) (sym h) (k a t refl)
      go (err e, t) h k = subst (λ (u : Session). P u.db) (sym h) here

  pub Reads-if_some :
      (o : Option A) (found : A → Action B) (missing : Action B)
      → ((a : A) → Reads (found a))
      → Reads missing
      → Reads (if_some o found missing)
  unfolding if_some
  Reads-if_some none found missing h k = k
  Reads-if_some (some a) found missing h k = h a

  pub Refuses-first : (m : Action A) (f : A → Action B) → Refuses m → Refuses (m >>= f)
  unfolding ◌>>=◌
  Refuses-first m f h = record {
    at = λ s. ((h.at s).0, ap (λ (p : Result A × Session). ◌>>=◌ (λ _. p) f s) (h.at s).1);
  }

  pub Refuses-after :
      (m : Action A) (f : A → Action B) → Reads m → ((a : A) → Refuses (f a)) → Refuses (m >>= f)
  unfolding ◌>>=◌
  Refuses-after m f hm hf = record { at = λ s. go s (m s) (hm.at s) }
    where
      go :
          (s : Session) (p : Result A × Session)
          → p.1 ≡ s
          → (e : Error) × (◌>>=◌ (λ _. p) f s ≡ (err e, s))
      go s (ok a, t) h =
          (((hf a).at t).0, ((hf a).at t).1 ∙ ap (λ (u : Session). (err ((hf a).at t).0, u)) h)
      go s (err e, t) h = (e, ap (λ (u : Session). (err e, u)) h)

  pub Refuses-if_some :
      (o : Option A) (found : A → Action B) (missing : Action B)
      → ((a : A) → Refuses (found a))
      → Refuses missing
      → Refuses (if_some o found missing)
  unfolding if_some
  Refuses-if_some none found missing h k = k
  Refuses-if_some (some a) found missing h k = h a

  pub Refuses-some :
      (a : A) (found : A → Action B) (missing : Action B)
      → Refuses (found a)
      → Refuses (if_some (some a) found missing)
  unfolding if_some
  Refuses-some a found missing h = h

  pub Refuses-none :
      (found : A → Action B) (missing : Action B)
      → Refuses missing
      → Refuses (if_some none found missing)
  unfolding if_some
  Refuses-none found missing h = h

module _ {A : Type 0} where
  pub Reads-pure : (a : A) → Reads (pure a)
  unfolding pure
  Reads-pure a = record { at = λ s. refl }

  pub Reads-raise : (e : Error) → Reads (raise {A = A} e)
  unfolding raise
  Reads-raise e = record { at = λ s. refl }

  pub Reads-gets : (f : Session → A) → Reads (gets f)
  unfolding gets
  Reads-gets f = record { at = λ s. refl }

  pub Reads-lift : (r : Result A) → Reads (lift r)
  unfolding lift
  Reads-lift r = record { at = λ s. refl }

  pub Reads-or_raise : (o : Option A) (e : Error) → Reads (or_raise o e)
  unfolding or_raise
  Reads-or_raise none e = record { at = λ s. refl }
  Reads-or_raise (some a) e = record { at = λ s. refl }

  pub Reads-one_or_none : (xs : List A) → Reads (one_or_none xs)
  unfolding one_or_none
  Reads-one_or_none [] = record { at = λ s. refl }
  Reads-one_or_none (x ∷ []) = record { at = λ s. refl }
  Reads-one_or_none (x ∷ y ∷ l) = record { at = λ s. refl }

  pub Reads-row_of : (xs : List A) → Reads (row_of xs)
  unfolding row_of
  Reads-row_of [] = record { at = λ s. refl }
  Reads-row_of (x ∷ l) = record { at = λ s. refl }

  pub Reads-if : (b : Bool) (m n : Action A) → Reads m → Reads n → Reads (if b then m else n)
  Reads-if true m n h k = h
  Reads-if false m n h k = k

  pub Refuses-if :
      (b : Bool) (m n : Action A) → Refuses m → Refuses n → Refuses (if b then m else n)
  Refuses-if true m n h k = h
  Refuses-if false m n h k = k

  pub Refuses-raise : (e : Error) → Refuses (raise {A = A} e)
  unfolding raise
  Refuses-raise e = record { at = λ s. (e, refl) }

  pub Keeps-Reads : (P : Db → Type 0) (m : Action A) → Reads m → Keeps P m
  Keeps-Reads P m h = record { at = λ s w. subst (λ (u : Session). P u.db) (sym (h.at s)) w }

pub Reads-raise_if : (c : Bool) (e : Error) → Reads (raise_if c e)
unfolding raise_if
Reads-raise_if c e = record { at = λ s. refl }

pub ruleset reads_rules = (
  Reads-bind, Reads-pure, Reads-raise, Reads-gets, Reads-lift, Reads-or_raise, Reads-one_or_none,
  Reads-row_of, Reads-if, Reads-if_some, Reads-raise_if,
)

pub ruleset refuses_rules = (
  reads_rules, Refuses-first, Refuses-after, Refuses-some, Refuses-none, Refuses-if_some,
  Refuses-if, Refuses-raise,
)
