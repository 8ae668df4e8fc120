-- ===== src/Hierarchy/Chains.antt =====
-- The chain of managers above a person, as an independent description of the `manager_id` column of
-- backend/app/services/user_hierarchy.py.
use access_piliot.Prelude.{ℕ, zero, suc, ◌+◌, ◌≡◌, ◌≢◌, refl, Option, none, some, List}
use native.Mathlib.Nat.{suc-add, zero-add}
use access_piliot.Store.{User}
use access_piliot.Hierarchy.{manager_of}

abbrev pub above : List User → Option ℕ → Option ℕ
above users none = none
above users (some i) = manager_of users i

-- `n` steps up from `o`.
abbrev pub climb : List User → ℕ → Option ℕ → Option ℕ
climb users zero o = o
climb users (suc n) o = climb users n (above users o)

-- Nobody stands above themselves.
abbrev pub IsAcyclic : List User → Type 0
IsAcyclic users = (n i : ℕ) → climb users (suc n) (some i) ≢ some i

pub climb-none : (users : List User) (n : ℕ) → climb users n none ≡ none
climb-none users zero = refl
climb-none users (suc n) = climb-none users n

pub climb-add :
    (users : List User) (m n : ℕ) (o : Option ℕ)
    → climb users (m + n) o ≡ climb users n (climb users m o)
climb-add users zero n o = rw zero-add
climb-add users (suc m) n o = rw suc-add (climb-add users m n (above users o))
