-- ===== src/Store/Rules.antt =====
-- Proof rules for code in a session: an invariant is kept whatever the outcome; a precondition
-- leads to a postcondition of the result, and another predicate holds where the code raises.
use access_piliot.Prelude.{
  ◌≡◌, refl, Bool, true, false, Option, none, some, List, [], ◌∷◌, if◌then◌else◌,
}
use access_piliot.Store.Types.{Error}
use access_piliot.Store.Running.{
  Session, Result, ok, raised, crashed, M, pure, raise, crash, gets, or_raise, ◌>>=◌, try_else,
  raise_if, for_each,
}

-- `m` keeps `P`, whether it returns, raises or crashes.
pub record Preserves {A : Type 0} (P : Session → Type 0) (m : M A) : Type 0 where
  pub at : (s : Session) → P s → P (m s).1

module _ {P : Session → Type 0} where
  module _ {A : Type 0} where
    pub Preserves-or_raise : (o : Option A) (e : Error) → Preserves P (or_raise o e)
    unfolding or_raise
    Preserves-or_raise none e = record { at = λ s held. held }
    Preserves-or_raise (some a) e = record { at = λ s held. held }

    pub Preserves-gets : (f : Session → A) → Preserves P (gets f)
    unfolding gets
    Preserves-gets f = record { at = λ s held. held }

    pub Preserves-crash : Preserves P (crash {A = A})
    unfolding crash
    Preserves-crash = record { at = λ s held. held }

    pub Preserves-raise : (e : Error) → Preserves P (raise {A = A} e)
    unfolding raise
    Preserves-raise e = record { at = λ s held. held }

    pub Preserves-pure : (a : A) → Preserves P (pure a)
    unfolding pure
    Preserves-pure a = record { at = λ s held. held }

    pub Preserves-if :
        (b : Bool) (m n : M A) → Preserves P m → Preserves P n → Preserves P (if b then m else n)
    Preserves-if true m n km kn = km
    Preserves-if false m n km kn = kn

  pub Preserves-raise_if : (b : Bool) (e : Error) → Preserves P (raise_if b e)
  unfolding raise_if
  Preserves-raise_if b e = record { at = λ s held. held }

module _ {P : Session → Type 0} {A B : Type 0} where
  Preserves-continue :
      (r : Result A) (f : A → M B) (s : Session)
      → P s
      → ((a : A) → Preserves P (f a))
      → P (◌>>=◌ (λ s'. (r, s')) f s).1
  unfolding ◌>>=◌
  Preserves-continue (ok a) f s h kf = (kf a).at s h
  Preserves-continue (raised e) f s h kf = h
  Preserves-continue crashed f s h kf = h

  pub Preserves-bind :
      (m : M A) (f : A → M B)
      → Preserves P m
      → ((a : A) → Preserves P (f a))
      → Preserves P (m >>= f)
  unfolding ◌>>=◌
  Preserves-bind m f km kf = record {
    at = λ s h. let (r, s') = m s in Preserves-continue r f s' (km.at s h) kf;
  }

  Preserves-recover :
      (r : Result A) (f : A → M B) (g : Error → M B) (s : Session)
      → P s
      → ((a : A) → Preserves P (f a))
      → ((e : Error) → Preserves P (g e))
      → P (try_else (λ s'. (r, s')) f g s).1
  unfolding try_else
  Preserves-recover (ok a) f g s h kf kg = (kf a).at s h
  Preserves-recover (raised e) f g s h kf kg = (kg e).at s h
  Preserves-recover crashed f g s h kf kg = h

  pub Preserves-try_else :
      (m : M A) (f : A → M B) (g : Error → M B)
      → Preserves P m
      → ((a : A) → Preserves P (f a))
      → ((e : Error) → Preserves P (g e))
      → Preserves P (try_else m f g)
  unfolding try_else
  Preserves-try_else m f g km kf kg = record {
    at = λ s h. let (r, s') = m s in Preserves-recover r f g s' (km.at s h) kf kg;
  }

module _ {P : Session → Type 0} {A : Type 0} where
  pub Preserves-for_each :
      (f : A → M (Unit {0})) (xs : List A)
      → ((a : A) → Preserves P (f a))
      → Preserves P (for_each f xs)
  unfolding for_each
  Preserves-for_each f [] kf = Preserves-pure tt
  Preserves-for_each f (x ∷ xs) kf = Preserves-bind (f x) _ (kf x) (λ _. Preserves-for_each f xs kf)

pub ruleset preserving_rules = (
  Preserves-pure, Preserves-raise, Preserves-crash, Preserves-gets, Preserves-or_raise,
  Preserves-if, Preserves-raise_if, Preserves-bind, Preserves-try_else, Preserves-for_each,
)

-- `m` keeps `P` where it is begun in a state of which `pre` holds too.
pub record From {A : Type 0} (pre P : Session → Type 0) (m : M A) : Type 0 where
  pub at : (s : Session) → pre s → P s → P (m s).1

module _ {P pre : Session → Type 0} {A : Type 0} where
  -- What keeps `P` alone.
  pub From-Preserves : {m : M A} → Preserves P m → From pre P m
  From-Preserves k = record { at = λ s _ h. k.at s h }

module _ {P : Session → Type 0} {A : Type 0} where
  -- At the start of a request nothing more is known.
  pub Preserves-From : {m : M A} → From (λ _. Unit {0}) P m → Preserves P m
  Preserves-From k = record { at = λ s h. k.at s tt h }

module _ {P pre : Session → Type 0} {A B : Type 0} where
  -- The precondition still holds behind an action that keeps both.
  pub From-bind :
      (m : M A) (f : A → M B)
      → Preserves (λ s. pre s × P s) m
      → ((a : A) → From pre P (f a))
      → From pre P (m >>= f)
  unfolding ◌>>=◌
  From-bind m f km kf = record {
    at = λ s p h. let (r, s') = m s in let kept = km.at s (p, h) in after r s' kept;
  }
    where
      after : (r : Result A) (s : Session) → pre s × P s → P (◌>>=◌ (λ s'. (r, s')) f s).1
      after (ok a) s (p, h) = (kf a).at s p h
      after (raised e) s (p, h) = h
      after crashed s (p, h) = h

  -- A test that was passed.
  pub From-or_raise :
      (o : Option A) (e : Error) (f : A → M B)
      → ((a : A) → o ≡ some a → From pre P (f a))
      → From pre P (or_raise o e >>= f)
  unfolding ◌>>=◌ or_raise
  From-or_raise none e f kf = record { at = λ s p h. h }
  From-or_raise (some a) e f kf = record { at = λ s p h. (kf a refl).at s p h }

  -- What was read is known of the state from there on.
  pub From-gets :
      (g : Session → A) (f : A → M B)
      → ((a : A) → From (λ s. pre s × (g s ≡ a)) P (f a))
      → From pre P (gets g >>= f)
  unfolding ◌>>=◌ gets
  From-gets g f kf = record { at = λ s p h. (kf (g s)).at s (p, refl) h }

module _ {P pre : Session → Type 0} {B : Type 0} where
  pub From-raise_if :
      (b : Bool) (e : Error) (f : Unit {0} → M B)
      → (b ≡ false → From pre P (f tt))
      → From pre P (raise_if b e >>= f)
  unfolding ◌>>=◌ raise_if
  From-raise_if true e f kf = record { at = λ s p h. h }
  From-raise_if false e f kf = record { at = λ s p h. (kf refl).at s p h }

  -- Behind a write that needs the precondition it is given up.
  pub From-write :
      (m : M (Unit {0})) (f : Unit {0} → M B)
      → From pre P m
      → Preserves P (f tt)
      → From pre P (m >>= f)
  unfolding ◌>>=◌
  From-write m f km kf = record { at = λ s p h. let (r, s') = m s in after r s' (km.at s p h) }
    where
      after : (r : Result (Unit {0})) (s : Session) → P s → P (◌>>=◌ (λ s'. (r, s')) f s).1
      after (ok tt) s h = kf.at s h
      after (raised e) s h = h
      after crashed s h = h

module _ {P pre : Session → Type 0} {A : Type 0} where
  -- Each branch knows what the test said.
  pub From-if :
      (b : Bool) (m n : M A)
      → (b ≡ true → From pre P m)
      → (b ≡ false → From pre P n)
      → From pre P (if b then m else n)
  From-if true m n km kn = km refl
  From-if false m n km kn = kn refl
