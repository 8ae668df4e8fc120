-- ===== src/SodPolicies/Referenced.antt =====
-- The rows that name a policy of Separation of Duties (backend/app/models/models.py), while the table
-- of policies is edited.
use access_piliot.Prelude.{
  ℕ, ◌≡◌, refl, Bool, true, false, not, ◌&&◌, List, [], ◌∷◌, ◌++◌, ◌==◌, any, all, map, select,
  get_row, update_row, some, arith,
}
use access_piliot.Store.{Db, SodPolicy, SodPolicyEntity}
use access_piliot.SodPolicies.Editing.{SodPolicyEntityCreate, policy_entity}

abbrev pub names_policy : List SodPolicy → ℕ → Bool
names_policy ps key = any (λ p. p.id == key) ps

names_policy-append :
    (key : ℕ) (ps qs : List SodPolicy)
    → names_policy ps key ≡ true
    → names_policy (ps ++ qs) key ≡ true
names_policy-append key [] qs h = ground arith
names_policy-append key (p ∷ ps) qs h = ground (arith, names_policy-append key ps qs)

pub names_policy-last :
    (p : SodPolicy) (ps : List SodPolicy) → names_policy (ps ++ p ∷ []) p.id ≡ true
names_policy-last p [] = ground arith
names_policy-last p (q ∷ ps) = ground (arith, names_policy-last p ps)

pub names_policy-update :
    (k key : ℕ) (f : SodPolicy → SodPolicy) (ps : List SodPolicy)
    → ((p : SodPolicy) → (f p).id ≡ p.id)
    → names_policy (update_row (λ p. p.id) k f ps) key ≡ names_policy ps key
unfolding update_row
names_policy-update k key f [] keeps = refl
names_policy-update k key f (p ∷ ps) keeps =
    ground (arith, keeps p, names_policy-update k key f ps keeps)

names_policy-delete :
    (k key : ℕ) (ps : List SodPolicy)
    → (key == k) ≡ false
    → names_policy ps key ≡ true
    → names_policy (select (λ p. not (p.id == k)) ps) key ≡ true
names_policy-delete k key [] other h = ground arith
names_policy-delete k key (p ∷ ps) other h = ground (arith, names_policy-delete k key ps other)

pub names_policy-found :
    (key : ℕ) (ps : List SodPolicy) (p : SodPolicy)
    → get_row (λ p. p.id) key ps ≡ some p
    → names_policy ps key ≡ true
unfolding get_row
names_policy-found key [] p h = ground arith
names_policy-found key (q ∷ ps) p h = ground (arith, names_policy-found key ps p)

module _ {A : Type 0} (policy : A → ℕ) where
  -- Each row names a policy that is stored.
  abbrev pub refers : List SodPolicy → List A → Bool
  refers ps rows = all (λ r. names_policy ps (policy r)) rows

  pub refers-append :
      (ps qs : List SodPolicy) (rows : List A)
      → refers ps rows ≡ true
      → refers (ps ++ qs) rows ≡ true
  refers-append ps qs [] h = refl
  refers-append ps qs (r ∷ rs) h =
      ground (arith, names_policy-append (policy r) ps qs, refers-append ps qs rs)

  pub refers-update :
      (k : ℕ) (f : SodPolicy → SodPolicy) (ps : List SodPolicy) (rows : List A)
      → ((p : SodPolicy) → (f p).id ≡ p.id)
      → refers ps rows ≡ true
      → refers (update_row (λ p. p.id) k f ps) rows ≡ true
  refers-update k f ps [] keeps h = refl
  refers-update k f ps (r ∷ rs) keeps h =
      ground (arith, names_policy-update k (policy r) f ps keeps, refers-update k f ps rs keeps)

  pub refers-delete :
      (k : ℕ) (ps : List SodPolicy) (rows : List A)
      → any (λ r. policy r == k) rows ≡ false
      → refers ps rows ≡ true
      → refers (select (λ p. not (p.id == k)) ps) rows ≡ true
  refers-delete k ps [] unused h = refl
  refers-delete k ps (r ∷ rs) unused h =
      ground (arith, unused, names_policy-delete k (policy r) ps, refers-delete k ps rs)

  pub refers-add :
      (ps : List SodPolicy) (rows new : List A)
      → refers ps rows ≡ true
      → refers ps new ≡ true
      → refers ps (rows ++ new) ≡ true
  refers-add ps [] new h k = k
  refers-add ps (r ∷ rs) new h k = ground (arith, refers-add ps rs new, k)

  pub refers-map :
      (g : A → A) (ps : List SodPolicy) (rows : List A)
      → ((r : A) → policy (g r) ≡ policy r)
      → refers ps (map g rows) ≡ refers ps rows
  refers-map g ps [] keeps = refl
  refers-map g ps (r ∷ rs) keeps = rw (keeps r) (rw (refers-map g ps rs keeps) refl)

  pub refers-update_row :
      (id : A → ℕ) (k : ℕ) (g : A → A) (ps : List SodPolicy) (rows : List A)
      → ((r : A) → policy (g r) ≡ policy r)
      → refers ps (update_row id k g rows) ≡ refers ps rows
  unfolding update_row
  refers-update_row id k g ps [] keeps = refl
  refers-update_row id k g ps (r ∷ rs) keeps =
      ground (arith, keeps r, refers-update_row id k g ps rs keeps)

pub refers-entities :
    (key : ℕ) (ps : List SodPolicy) (es : List SodPolicyEntityCreate)
    → names_policy ps key ≡ true
    → refers (λ (e : SodPolicyEntity). e.sod_policy_id) ps (map (policy_entity key) es) ≡ true
refers-entities key ps [] h = refl
refers-entities key ps (e ∷ es) h = ground (arith, h, refers-entities key ps es h)

-- No rule, exception, notification or request of Separation of Duties names a policy that is gone.
abbrev pub is_whole : Db → Bool
is_whole db =
    refers (λ e. e.sod_policy_id) db.sod_policies db.sod_entities
    && refers (λ e. e.sod_policy_id) db.sod_policies db.sod_exceptions
    && refers (λ n. n.sod_policy_id) db.sod_policies db.sod_notifications
    && refers (λ r. r.sod_policy_id) db.sod_policies db.sod_exception_requests
