-- ===== src/Hierarchy/Walk.antt =====
-- The walk of `_would_create_cycle` (backend/app/services/user_hierarchy.py): it always ends, and it
-- finds the user exactly if the user is the proposed manager or stands above them.
use access_piliot.Prelude.{
  ℕ, zero, suc, ◌+◌, ◌≤◌, ◌<◌, ◌≡◌, ◌≢◌, refl, ◌⊎◌, inl, inr, Bool, true, false, Option, none, some,
  List, [], ◌∷◌, ◌==◌, if◌then◌else◌, contains, length, get_row, arith, Bool-cases, Option-cases,
  ap, ==_iff, ◌∙◌,
}
use mathlib.Core.Logic.{◌↔◌}
use access_piliot.Store.{User}
use access_piliot.Hierarchy.{manager_of, walk, would_create_cycle}
use access_piliot.Hierarchy.Chains.{above, climb, climb-none, climb-add}

-- How many rows the walk has not met.
fresh : List User → List ℕ → ℕ
fresh [] seen = 0
fresh (u ∷ us) seen = if contains u.id seen then fresh us seen else suc (fresh us seen)

fresh-cons-le : (us : List User) (c : ℕ) (seen : List ℕ) → fresh us (c ∷ seen) ≤ fresh us seen
unfolding fresh
fresh-cons-le [] c seen = omega arith
fresh-cons-le (u ∷ us) c seen = ground (arith, fresh-cons-le us c seen)

fresh-cons-lt :
    (us : List User) (c : ℕ) (seen : List ℕ) (u : User)
    → get_row (λ r. r.id) c us ≡ some u
    → contains c seen ≡ false
    → fresh us (c ∷ seen) < fresh us seen
unfolding fresh get_row
fresh-cons-lt [] c seen u found new = cc
fresh-cons-lt (r ∷ us) c seen u found new =
    ground (arith, fresh-cons-lt us c seen u, fresh-cons-le us c seen)

fresh-le-length : (us : List User) → fresh us [] ≤ length us
unfolding fresh
fresh-le-length [] = omega arith
fresh-le-length (u ∷ us) = omega (arith, fresh-le-length us)

manager_of-none :
    (users : List User) (c : ℕ) → get_row (λ r. r.id) c users ≡ none → manager_of users c ≡ none
unfolding manager_of
manager_of-none users c h = ground arith

-- Every person met so far has no manager, or one who was met or is met next.
IsClosed : List User → List ℕ → Option ℕ → Type 0
IsClosed users seen next =
    (x : ℕ)
    → contains x seen ≡ true
    → (manager_of users x ≡ none)
      ⊎ (manager_of users x ≡ next)
      ⊎ ((y : ℕ) × (manager_of users x ≡ some y) × (contains y seen ≡ true))

-- Nobody outside `seen` stands above somebody in it.
IsSealed : List User → List ℕ → Type 0
IsSealed users seen =
    (x : ℕ)
    → contains x seen ≡ true
    → (manager_of users x ≡ none)
      ⊎ ((y : ℕ) × (manager_of users x ≡ some y) × (contains y seen ≡ true))

module _ (users : List User) (user_id : ℕ) where
  walk-total :
      (fuel : ℕ) (seen : List ℕ) (current : Option ℕ)
      → fresh users seen < fuel
      → (b : Bool) × (walk users user_id fuel seen current ≡ some b)
  unfolding walk
  walk-total fuel seen none enough = (false, refl)
  walk-total zero seen (some c) enough = absurd (omega arith)
  walk-total (suc fuel) seen (some c) enough = elim (Bool-cases (c == user_id)) [
    | inl met ↦ (true, rw met)
    | inr other ↦ elim (Bool-cases (contains c seen)) [
      | inl old ↦ (false, rw (other, old))
      | inr new ↦ elim (Option-cases (get_row (λ r. r.id) c users)) [
        | inl gone ↦ (false, rw (other, new, manager_of-none users c gone))
        | inr (u, found) ↦
            rw (other, new)
              (walk-total fuel (c ∷ seen) (manager_of users c)
                (omega (arith, fresh-cons-lt users c seen u found new)))
      ]
    ]
  ]

  stays :
      (seen : List ℕ)
      → IsSealed users seen
      → contains user_id seen ≡ false
      → (n x : ℕ) → contains x seen ≡ true
      → climb users n (some x) ≢ some user_id
  unfolding IsSealed
  stays seen closed out zero x inside e = ground arith
  stays seen closed out (suc n) x inside e = elim (closed x inside) [
    | inl top ↦ cc (climb-none users n, rw top at e)
    | inr (y, up, within) ↦ stays seen closed out n y within (rw up at e)
  ]

  seal :
      (seen : List ℕ) (next : Option ℕ)
      → IsClosed users seen next
      → (next ≡ none) ⊎ ((y : ℕ) × (next ≡ some y) × (contains y seen ≡ true))
      → IsSealed users seen
  unfolding IsClosed IsSealed
  seal seen next closed end x inside = elim (closed x inside) [
    | inl top ↦ inl top
    | inr (inl onward) ↦ elim end [
      | inl stop ↦ inl (onward ∙ stop)
      | inr (y, e, within) ↦ inr (y, onward ∙ e, within)
    ]
    | inr (inr known) ↦ inr known
  ]

  IsClosed-cons :
      (seen : List ℕ) (c : ℕ)
      → IsClosed users seen (some c)
      → IsClosed users (c ∷ seen) (manager_of users c)
  unfolding IsClosed
  IsClosed-cons seen c closed x inside = elim (Bool-cases (x == c)) [
    | inl same ↦ inr (inl (ap (manager_of users) ((==_iff x c).0 same)))
    | inr other ↦ elim (closed x (ground arith)) [
      | inl top ↦ inl top
      | inr (inl onward) ↦ inr (inr (c, onward, ground arith))
      | inr (inr (y, up, within)) ↦ inr (inr (y, up, ground arith))
    ]
  ]

  -- An answer of false: the start is met or next, nobody met is the user, and what was met is closed.
  walk-false :
      (start fuel : ℕ) (seen : List ℕ) (current : Option ℕ)
      → IsClosed users seen current
      → contains user_id seen ≡ false
      → (contains start seen ≡ true) ⊎ (current ≡ some start)
      → walk users user_id fuel seen current ≡ some false
      → (n : ℕ) → climb users n (some start) ≢ some user_id
  unfolding walk
  walk-false start fuel seen none closed out here e n =
      stays seen (seal seen none closed (inl refl)) out n start (ground arith)
  walk-false start zero seen (some c) closed out here e n = cc
  walk-false start (suc fuel) seen (some c) closed out here e n =
      elim (Bool-cases (contains c seen)) [
        | inl old ↦
            stays seen (seal seen (some c) closed (inr (c, refl, old))) out n start (ground arith)
        | inr new ↦
            walk-false start fuel (c ∷ seen) (manager_of users c) (IsClosed-cons seen c closed)
              (ground arith) (ground arith) (ground arith) n
      ]

  -- An answer of true: the user is on the chain from the start.
  walk-true :
      (start fuel : ℕ) (seen : List ℕ) (current : Option ℕ) (n : ℕ)
      → climb users n (some start) ≡ current
      → walk users user_id fuel seen current ≡ some true
      → (m : ℕ) × (climb users m (some start) ≡ some user_id)
  unfolding walk
  walk-true start fuel seen none n at e = cc
  walk-true start zero seen (some c) n at e = cc
  walk-true start (suc fuel) seen (some c) n at e = elim (Bool-cases (c == user_id)) [
    | inl met ↦ (n, ground arith)
    | inr other ↦
        walk-true start fuel (c ∷ seen) (manager_of users c) (n + 1)
          (climb-add users n 1 (some start) ∙ ap (above users) at) (ground arith)
  ]

-- The fuel is enough: the walk up from the proposed manager always ends with an answer.
pub would_create_cycle-total :
    (users : List User) (user_id proposed : ℕ)
    → (b : Bool) × (would_create_cycle users user_id proposed ≡ some b)
unfolding would_create_cycle
would_create_cycle-total users user_id proposed =
    walk-total users user_id _ [] (some proposed) (omega (arith, fresh-le-length users))

-- With an answer of false the user does not stand on the chain from the proposed manager.
pub not-above_of_false :
    (users : List User) (user_id proposed : ℕ)
    → would_create_cycle users user_id proposed ≡ some false
    → (n : ℕ) → climb users n (some proposed) ≢ some user_id
unfolding would_create_cycle IsClosed
not-above_of_false users user_id proposed e =
    walk-false users user_id proposed _ [] (some proposed) (λ x inside. cc) refl (inr refl) e

-- The check answers true exactly if the user is the proposed manager or stands somewhere above them
-- in the chain of managers.
pub would_create_cycle_iff :
    (users : List User) (user_id proposed : ℕ)
    → (would_create_cycle users user_id proposed ≡ some true)
      ↔ ((n : ℕ) × (climb users n (some proposed) ≡ some user_id))
unfolding would_create_cycle
would_create_cycle_iff users user_id proposed = (
  walk-true users user_id proposed _ [] (some proposed) 0 refl,
  λ (n, met). decide_by (would_create_cycle-total users user_id proposed) n met,
)
  where
    decide_by :
        ((b : Bool) × (would_create_cycle users user_id proposed ≡ some b))
        → (n : ℕ) → climb users n (some proposed) ≡ some user_id
        → would_create_cycle users user_id proposed ≡ some true
    decide_by (true, e) n met = e
    decide_by (false, e) n met = absurd (not-above_of_false users user_id proposed e n met)
