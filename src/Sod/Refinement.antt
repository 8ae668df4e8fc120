-- ===== src/Sod/Refinement.antt =====
-- How the preventive check meets its specification (backend/app/services/sod.py).
use access_piliot.Prelude.{
  ℕ, ◌≡◌, refl, sym, ◌∙◌, Bool, true, false, ◌||◌, Option, none, some, List, [], ◌∷◌, ◌==◌, any,
  all, map, select, first, is_some, inl, inr, Option-cases, Bool-cases, if◌then◌else◌, arith,
}
use access_piliot.Store.{
  Session, Db, User, Provider, ResourceType, role, application, ok, then_, pure, gets, or_raise,
  ◌>>=◌, ◌>>◌,
}
use access_piliot.Target.{resolve_target, find_target}
use access_piliot.Accounts.{provider_by}
use access_piliot.Sod.Holdings.{
  Entitlement, holds, add_holding, add_holdings, add_live, names, of_kind, direct, live_roles,
  live_apps, app_entitlements, is_entra, or_empty,
}
use access_piliot.Sod.Checks.{non_empty}
use access_piliot.Sod.Specification.{has_live_role, has_live_app, in_directory, has_live}

module _ {A : Type 0} where
  pub non_empty-map-select :
      {B : Type 0} (f : A → B) (p : A → Bool) (xs : List A)
      → non_empty (map f (select p xs)) ≡ any p xs
  non_empty-map-select f p [] = refl
  non_empty-map-select f p (x ∷ xs) = ground (arith, non_empty-map-select f p xs)

  non_empty-select : (p : A → Bool) (xs : List A) → non_empty (select p xs) ≡ any p xs
  non_empty-select p [] = refl
  non_empty-select p (x ∷ xs) = ground (arith, non_empty-select p xs)

pub non_empty-add_live :
    (es seen : List Entitlement) → non_empty (add_live es seen) ≡ (non_empty es || non_empty seen)
non_empty-add_live [] seen = refl
non_empty-add_live (e ∷ es) [] = non_empty-add_live es (e ∷ []) ∙ ground arith
non_empty-add_live (e ∷ es) (x ∷ xs) =
    ground (arith, non_empty-add_live es (x ∷ xs), non_empty-add_live es (e ∷ x ∷ xs))

abbrev pub resolves : Db → Entitlement → Bool
resolves db e = is_some (find_target e.kind e.resource db)

resolved :
    (t : ResourceType) (r : ℕ) (s : Session) (xs : List Entitlement)
    → is_some (find_target t r s.db) ≡ true
    → (resolve_target t r >> pure xs) s ≡ (ok xs, s)
unfolding resolve_target ◌>>=◌ gets or_raise pure
resolved t r s xs h = elim (Option-cases (find_target t r s.db)) [
  | inl missing ↦ ground (arith, missing, h)
  | inr (found, there) ↦ rw there refl
]

add_holding-yields :
    (e : Entitlement) (seen : List Entitlement) (s : Session)
    → resolves s.db e ≡ true
    → add_holding e seen s ≡ (ok (if holds e seen then seen else e ∷ seen), s)
unfolding add_holding
add_holding-yields e seen s h = elim (Bool-cases (holds e seen)) [
  | inl known ↦ rw known (unfold pure in refl)
  | inr new ↦ rw new (resolved e.kind e.resource s (e ∷ seen) h)
]

pub add_holdings-yields :
    (es seen : List Entitlement) (s : Session)
    → all (resolves s.db) es ≡ true
    → add_holdings es seen s ≡ (ok (add_live es seen), s)
unfolding add_holdings
add_holdings-yields [] seen s h = unfold pure in refl
add_holdings-yields (e ∷ es) seen s h =
    then_ _ _ s _ _ (add_holding-yields e seen s (ground arith))
      (add_holdings-yields es (if holds e seen then seen else e ∷ seen) s (ground arith))

names-of_kind :
    (k : ResourceType) (key : ℕ) (ts : List Entitlement)
    → of_kind k ts ≡ false
    → names k key ts ≡ false
names-of_kind k key [] h = refl
names-of_kind k key (t ∷ ts) h = ground (arith, names-of_kind k key ts)

holds-of_kind :
    (e : Entitlement) (ts : List Entitlement) → of_kind e.kind ts ≡ false → holds e ts ≡ false
holds-of_kind e [] h = refl
holds-of_kind e (t ∷ ts) h = ground (arith, holds-of_kind e ts)

pub any-false :
    {A : Type 0} (p : A → Bool) (xs : List A) → ((x : A) → p x ≡ false) → any p xs ≡ false
any-false p [] h = refl
any-false p (x ∷ xs) h = ground (arith, h x, any-false p xs h)

no_live_role :
    (u : User) (ts : List Entitlement) (s : Session)
    → of_kind role ts ≡ false
    → has_live_role u ts s ≡ false
no_live_role u ts s h = any-false _ s.db.roles (λ r. ground (arith, names-of_kind role r.id ts h))

no_app :
    (ts : List Entitlement) (apps : _) (entries : List (ℕ × Option ℕ))
    → of_kind application ts ≡ false
    → any (λ e. holds e ts) (app_entitlements apps entries) ≡ false
no_app ts apps [] h = refl
no_app ts apps ((x, app_role) ∷ entries) h =
    elim (Option-cases (first (λ a. a.external_id == x) apps)) [
      | inl missing ↦ ground (arith, missing, no_app ts apps entries h)
      | inr (a, there) ↦ ground (
        arith,
        there,
        holds-of_kind (record { kind = application; resource = a.id; app_role = app_role }) ts,
        no_app ts apps entries h,
      )
    ]

-- What the directory tells of the person's roles in applications.
abbrev pub reported : Session → User → List Entitlement
reported s u =
    app_entitlements s.db.applications
      (or_empty (s.world.app_role_assignments s.calls u.external_id))

abbrev pub directly :
    List Entitlement → List Entitlement → Session → User → Option Provider → List Entitlement
directly ts seen s u none = seen
directly ts seen s u (some p) =
    if is_entra p.type
    then add_live (if of_kind application ts then live_apps s u ts else [])
        (add_live (if of_kind role ts then live_roles s u ts else []) seen)
    else seen

pub directly_held :
    (ts seen : List Entitlement) (s : Session) (u : User) (o : Option Provider)
    → non_empty (directly ts seen s u o) ≡ (non_empty seen || in_directory u ts s o)
directly_held ts seen s u none = ground arith
directly_held ts seen s u (some p) =
    let apps = if of_kind application ts then live_apps s u ts else [] in
    let roles = if of_kind role ts then live_roles s u ts else [] in
    ground (
      arith,
      non_empty-add_live apps (add_live roles seen),
      non_empty-add_live roles seen,
      live_roles_lem,
      live_apps_lem,
    )
  where
    live_roles_lem :
        non_empty (if of_kind role ts then live_roles s u ts else []) ≡ has_live_role u ts s
    live_roles_lem = elim (Bool-cases (of_kind role ts)) [
      | inl asked ↦ rw asked (non_empty-map-select _ _ s.db.roles)
      | inr not_asked ↦ rw not_asked (sym (no_live_role u ts s not_asked))
    ]

    live_apps_lem :
        non_empty (if of_kind application ts then live_apps s u ts else []) ≡ has_live_app u ts s
    live_apps_lem = elim (Bool-cases (of_kind application ts)) [
      | inl asked ↦ rw asked (non_empty-select (λ e. holds e ts) (reported s u))
      | inr not_asked ↦ rw not_asked (
          sym (
            no_app ts s.db.applications
              (or_empty (s.world.app_role_assignments s.calls u.external_id)) not_asked))
    ]

pub all-select :
    {A : Type 0} (p q : A → Bool) (f : A → Entitlement) (db : Db) (xs : List A)
    → ((x : A) → q x ≡ true → resolves db (f x) ≡ true)
    → all q xs ≡ true
    → all (resolves db) (map f (select p xs)) ≡ true
all-select p q f db [] keeps h = refl
all-select p q f db (x ∷ xs) keeps h = ground (arith, keeps x, all-select p q f db xs keeps)

pub direct-yields :
    (ts seen : List Entitlement) (s : Session) (u : User)
    → direct ts seen (some u) s ≡ (ok (directly ts seen s u (provider_by u.provider_id s.db)), s)
unfolding direct gets ◌>>=◌
direct-yields ts seen s u = elim (Option-cases (provider_by u.provider_id s.db)) [
  | inl missing ↦ ground (arith, missing)
  | inr (p, there) ↦ ground (arith, there)
]

-- Of neither kind, nothing is read of the directory.
pub no_direct :
    (ts : List Entitlement) (s : Session) (o : Option User)
    → of_kind role ts ≡ false
    → of_kind application ts ≡ false
    → has_live ts s o ≡ false
no_direct ts s none roles apps = refl
no_direct ts s (some u) roles apps = by_provider (provider_by u.provider_id s.db)
  where
    by_provider : (o : Option Provider) → in_directory u ts s o ≡ false
    by_provider none = refl
    by_provider (some p) = ground (
      arith,
      no_live_role u ts s roles,
      no_app ts s.db.applications (or_empty (s.world.app_role_assignments s.calls u.external_id))
          apps,
    )
