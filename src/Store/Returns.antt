-- ===== src/Store/Returns.antt =====
-- Inversion: what is known when code in a session has returned a result. Each part of it returned.
use access_piliot.Prelude.{◌≡◌, refl, ap, ◌∙◌, Bool, true, false, Option, none, some, arith}
use access_piliot.Store.Types.{Error}
use access_piliot.Store.Running.{
  Session, Result, ok, raised, crashed, M, gets, or_raise, ◌>>=◌, continue, raise_if,
}

module _ {A B : Type 0} where
  pub bind-ok :
      (m : M A) (f : A → M B) (s : Session) (b : B)
      → ((m >>= f) s).0 ≡ ok b
      → (a : A) × ((m s).0 ≡ ok a) × ((f a (m s).1).0 ≡ ok b)
  unfolding ◌>>=◌
  bind-ok m f s b h = split (m s).0 (m s).1 refl h
    where
      split :
          (r : Result A) (t : Session)
          → (m s).0 ≡ r
          → (◌>>=◌ (λ s'. (r, t)) f s).0 ≡ ok b
          → (a : A) × ((m s).0 ≡ ok a) × ((f a t).0 ≡ ok b)
      split (ok a) t e k = (a, e, k)
      split (raised x) t e k = ground arith
      split crashed t e k = ground arith

  pub gets-ok :
      (g : Session → A) (f : A → M B) (s : Session) (b : B)
      → ((gets g >>= f) s).0 ≡ ok b
      → (f (g s) s).0 ≡ ok b
  unfolding ◌>>=◌ gets
  gets-ok g f s b h = h

  pub or_raise-ok :
      (o : Option A) (e : Error) (f : A → M B) (s : Session) (b : B)
      → ((or_raise o e >>= f) s).0 ≡ ok b
      → (a : A) × (o ≡ some a) × ((f a s).0 ≡ ok b)
  unfolding ◌>>=◌ or_raise
  or_raise-ok none e f s b h = ground arith
  or_raise-ok (some a) e f s b h = (a, refl, h)

module _ {B : Type 0} where
  pub raise_if-ok :
      (c : Bool) (e : Error) (f : Unit {0} → M B) (s : Session) (b : B)
      → ((raise_if c e >>= f) s).0 ≡ ok b
      → (c ≡ false) × ((f tt s).0 ≡ ok b)
  unfolding ◌>>=◌ raise_if
  raise_if-ok true e f s b h = ground arith
  raise_if-ok false e f s b h = (refl, h)

module _ {A B : Type 0} where
  -- Code goes on with a result that is known.
  pub bind-known :
      (m : M A) (f : A → M B) (s : Session) (a : A) → (m s).0 ≡ ok a → (m >>= f) s ≡ f a (m s).1
  unfolding ◌>>=◌
  bind-known m f s a h = ap (λ r. continue r f (m s).1) h

  pub bind-raised :
      (m : M A) (f : A → M B) (s : Session) (e : Error)
      → (m s).0 ≡ raised e
      → (m >>= f) s ≡ (raised e, (m s).1)
  unfolding ◌>>=◌
  bind-raised m f s e h = ap (λ r. continue r f (m s).1) h

  -- The same, with the state that the action leaves.
  pub then_ :
      (m : M A) (f : A → M B) (s : Session) {t : Session} (a : A) (r : Result B × Session)
      → m s ≡ (ok a, t)
      → f a t ≡ r
      → (m >>= f) s ≡ r
  unfolding ◌>>=◌
  then_ m f s a r h k = ap (λ x. continue x.0 f x.1) h ∙ k

module _ {B : Type 0} where
  pub raise_if-known :
      (c : Bool) (e : Error) (f : Unit {0} → M B) (s : Session)
      → c ≡ false
      → (raise_if c e >>= f) s ≡ f tt s
  unfolding ◌>>=◌ raise_if
  raise_if-known c e f s h = rw h refl
