-- ===== src/Packages/Requests.antt =====
-- Who may ask for a package (`request_package` of backend/app/services/packages.py).
use mathlib.Core.Path.{subst}
use mathlib.Core.Option.{some_inj}
use access_piliot.Prelude.{
  Bool-cases, inl, inr, sym, ap, ◌∙◌, ==_iff, ℕ, ◌≡◌, Bool, true, false, not, ◌&&◌, Option, none,
  some, List, [], ◌∷◌, ◌==◌, any, select, arith,
}
use access_piliot.Store.{Session, Package, ok, bind-ok, gets-ok, or_raise-ok, raise_if-ok, pure}
use access_piliot.Target.{internal_user_id}
use access_piliot.Workflows.Outcomes.{Handlers}
use access_piliot.Workflows.Voting.{is_enabled}
use access_piliot.Packages.Assigning.{
  PackageAssign, MemberResult, is_eligible_for, requestable_packages, list_requestable_packages,
  request_package,
}

module _ {A : Type 0} (eligible active wanted : A → Bool) where
  any-select :
      (xs : List A)
      → any wanted (select (λ x. eligible x && active x) xs) ≡ true
      → (any (λ x. wanted x && active x) xs ≡ true)
        × ((x : A) × (wanted x ≡ true) × (eligible x ≡ true))
  any-select [] h = ground arith
  any-select (x ∷ xs) h = elim (Bool-cases (wanted x && (eligible x && active x))) [
    | inl here ↦ (ground (arith, here), (x, ground (arith, here), ground (arith, here)))
    | inr other ↦
        let (found, rest) = any-select xs (later x xs h other) in (ground (arith, found), rest)
  ]
    where
      later :
          (x : A) (xs : List A)
          → any wanted (select (λ x. eligible x && active x) (x ∷ xs)) ≡ true
          → (wanted x && (eligible x && active x)) ≡ false
          → any wanted (select (λ x. eligible x && active x) xs) ≡ true
      later x xs h other = ground arith

listed-ok :
    (o : Option ℕ) (user : ℕ) (s : Session) (ps : List Package)
    → o ≡ some user
    → (list_requestable_packages o s).0 ≡ ok ps
    → ps ≡ requestable_packages user s.db
unfolding list_requestable_packages pure
listed-ok none user s ps known h = ground (arith, known)
listed-ok (some u) user s ps known h =
    let (done, walked, returned) = bind-ok _ _ s ps (gets-ok _ _ s ps h) in
    ok_inj returned ∙ ap (λ k. requestable_packages k s.db) (some_inj.0 known)
  where
    ok_inj : {a b : List Package} → ok a ≡ ok b → b ≡ a
    ok_inj e = ground (arith, e)

passed : (b : Bool) → not b ≡ false → b ≡ true
passed b h = ground arith

-- A request that returns was made by a known person who is eligible for the package, by name or as a
-- member of a group, and the package is active.
pub request_package-ok :
    (handlers : Handlers) (key : ℕ) (data' : PackageAssign) (subject : ℕ) (s : Session)
    (result : MemberResult)
    → (request_package handlers key data' subject s).0 ≡ ok result
    → (user : ℕ) × (internal_user_id subject s.db ≡ some user)
      × (is_eligible_for user key s.db ≡ true)
      × (any (λ p. (p.id == key) && is_enabled p.status) s.db.packages ≡ true)
unfolding request_package
request_package-ok handlers key data' subject s result h =
    let k = gets-ok _ _ s result h in
    let (user, known, rest) = or_raise-ok _ _ _ s result k in
    let (listed, found, later) = bind-ok _ _ s result rest in
    let (eligible, more) = raise_if-ok _ _ _ _ result later in
    let same = listed-ok (internal_user_id subject s.db) user s listed known found in
    let (active, (p, wanted, named)) =
      any-select (λ p. is_eligible_for user p.id s.db) (λ p. is_enabled p.status) (λ p. p.id == key)
        s.db.packages (ap (any (λ p. p.id == key)) (sym same) ∙ passed _ eligible) in
    (
      user,
      known,
      subst (λ k. is_eligible_for user k s.db ≡ true) ((==_iff p.id key).0 wanted) named,
      active,
    )
