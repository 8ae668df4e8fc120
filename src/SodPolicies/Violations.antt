-- ===== src/SodPolicies/Violations.antt =====
-- The scan for people on both sides of a policy (`get_sod_violations` of backend/app/services/sod.py).
use access_piliot.Prelude.{
  ℕ, Bool, true, not, ◌&&◌, ◌||◌, Option, none, some, List, [], ◌∷◌, ◌++◌, ◌==◌, any, map,
  if◌then◌else◌, select,
}
use access_piliot.Store.{
  Db, Session, User, Assignment, UserGroup, SodPolicy, side_a, side_b, group, role, application,
  same_type, M, pure, gets, ◌>>=◌, ◌>>◌, for_each,
}
use access_piliot.Target.{resolve_target}
use access_piliot.Sod.{
  Entitlement, holds, same_entitlement, entitlement_of, is_live, names, of_kind, entities_of,
  side_entitlements, non_empty, excepted, is_enabled, resolve_user_holdings,
}

-- `SodViolationHolding`: the entitlement, and the assignment that gives it if the program granted it.
pub record Holding : Type 0 where
  pub assignment_id : Option ℕ
  pub entitlement : Entitlement

pub record Violation : Type 0 where
  pub policy_id : ℕ
  pub user_id : ℕ
  pub side_a_holdings : List Holding
  pub side_b_holdings : List Holding
  pub exception_active : Bool

-- The assignment that `_resolve_user_holdings` lists an entitlement for is the first one that gives
-- it.
abbrev source_in : ℕ → Entitlement → List Assignment → Option ℕ
source_in user e [] = none
source_in user e (a ∷ rows) =
    if (a.user_id == user) && is_live a.status && same_entitlement (entitlement_of a) e
    then some a.id
    else source_in user e rows

abbrev with_sources : ℕ → Db → List Entitlement → List Holding
with_sources user db es =
    map (λ e. record { assignment_id = source_in user e db.assignments; entitlement = e }) es

unfoldable pub holdings_of : ℕ → List Entitlement → M (List Holding)
holdings_of user tuples = do
  es ← resolve_user_holdings user tuples
  gets (λ s. with_sources user s.db es)

abbrev pub violation_if :
    ℕ → ℕ → Bool → List Holding → List Holding → List Violation → List Violation
violation_if policy user cleared xs ys rest =
    if non_empty xs && non_empty ys
    then record {
      policy_id = policy;
      user_id = user;
      side_a_holdings = xs;
      side_b_holdings = ys;
      exception_active = cleared;
    }
      ∷ rest
    else rest

-- With roles or applications in the policy each person's directory is read.
unfoldable pub scan_users : ℕ → (xs ys : List Entitlement) → List User → M (List Violation)
unfolding holdings_of
scan_users policy xs ys [] = pure []
scan_users policy xs ys (u ∷ us) = do
  held_a ← holdings_of u.id xs
  held_b ← if non_empty held_a then holdings_of u.id ys else pure []
  cleared ← gets (excepted policy u.id)
  rest ← scan_users policy xs ys us
  pure (violation_if policy u.id cleared held_a held_b rest)

-- `_to_holding` of each row looks its target up.
abbrev assigned : List Entitlement → Db → List Assignment
assigned tuples db =
    select (λ a. is_live a.status && holds (entitlement_of a) tuples) db.assignments

-- A holding, and whose it is.
abbrev pub Held : Type 0
Held = ℕ × Holding

abbrev held_by : Assignment → Held
held_by a = (a.user_id, record { assignment_id = some a.id; entitlement = entitlement_of a })

abbrev same_group : UserGroup → Held → Bool
same_group m (user, h) =
    (user == m.user_id)
    && same_type h.entitlement.kind group
    && (h.entitlement.resource == m.group_id)

abbrev joined : UserGroup → Held
joined m = (
  m.user_id,
  record {
    assignment_id = none;
    entitlement = record { kind = group; resource = m.group_id; app_role = none };
  },
)

-- A membership that is listed already is passed over; another one looks its group up.
unfoldable pub add_direct_group_holdings : List UserGroup → List Held → M (List Held)
add_direct_group_holdings [] found = pure found
add_direct_group_holdings (m ∷ ms) found = do
  found' ←
      if any (same_group m) found
      then pure found
      else (resolve_target group m.group_id >> pure (found ++ joined m ∷ []))
  add_direct_group_holdings ms found'

unfoldable pub side_holdings : List Entitlement → M (List Held)
unfolding add_direct_group_holdings
side_holdings tuples = do
  rows ← gets (λ s. assigned tuples s.db)
  for_each (λ a. resolve_target a.resource_type a.resource_id >> pure tt) rows
  ms ← gets (λ s. select (λ m. names group m.group_id tuples) s.db.user_groups)
  add_direct_group_holdings ms (map held_by rows)

abbrev pub of_user : ℕ → List Held → List Holding
of_user user [] = []
of_user user ((u, h) ∷ hs) = if u == user then h ∷ of_user user hs else of_user user hs

abbrev pub people : List Held → List ℕ → List ℕ
people [] seen = []
people ((u, h) ∷ hs) seen =
    let known = any (λ v. v == u) seen in
    let rest = people hs (if known then seen else u ∷ seen) in if known then rest else u ∷ rest

-- `set(a_by_user) & set(b_by_user)`, in the order of the first side.
abbrev paired : ℕ → Session → (xs ys : List Held) → List ℕ → List Violation
paired policy s xs ys [] = []
paired policy s xs ys (u ∷ us) =
    violation_if policy u (excepted policy u s) (of_user u xs) (of_user u ys)
      (paired policy s xs ys us)

-- Policies about groups only are answered by the tables.
unfoldable pub scan_tables : ℕ → (xs ys : List Entitlement) → M (List Violation)
unfolding side_holdings
scan_tables policy xs ys = do
  held_a ← side_holdings xs
  held_b ← side_holdings ys
  gets (λ s. paired policy s held_a held_b (people held_a []))

abbrev is_direct : List Entitlement → Bool
is_direct tuples = of_kind role tuples || of_kind application tuples

unfoldable pub scan_policy : SodPolicy → M (List Violation)
unfolding scan_users scan_tables
scan_policy p = do
  xs ← gets (λ s. side_entitlements s.db side_a (entities_of p.id s.db))
  ys ← gets (λ s. side_entitlements s.db side_b (entities_of p.id s.db))
  users ← gets (λ s. s.db.users)
  if not (non_empty xs && non_empty ys)
      then pure []
      else if is_direct xs || is_direct ys
      then scan_users p.id xs ys users
      else scan_tables p.id xs ys

unfoldable pub scan_policies : List SodPolicy → M (List Violation)
unfolding scan_policy
scan_policies [] = pure []
scan_policies (p ∷ ps) = do first ← scan_policy p; rest ← scan_policies ps; pure (first ++ rest)

abbrev is_asked_for : Option ℕ → SodPolicy → Bool
is_asked_for none p = true
is_asked_for (some key) p = p.id == key

unfoldable pub get_sod_violations : (policy : Option ℕ) → M (List Violation)
unfolding scan_policies
get_sod_violations policy = do
  policies ←
      gets (λ s. select (λ p. is_enabled p.status && is_asked_for policy p) s.db.sod_policies)
  scan_policies policies
