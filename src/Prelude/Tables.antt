-- ===== src/Prelude/Tables.antt =====
-- A table is the list of its rows. `id` projects a row's primary key.
use Prim.Native.Nat.{ℕ}
use mathlib.Core.Path.{◌≡◌}
use mathlib.Core.Option.{Option, none, some}
use mathlib.Core.Option
use mathlib.Core.List.{List, [], ◌∷◌, ◌++◌}
use native.Mathlib.Omega.{arith}
use access_piliot.Prelude.Tests.{◌==◌, if◌then◌else◌}

module _ {ℓ} {A : Type ℓ} (id : A → ℕ) where
  -- `session.get(Model, key)`.
  unfoldable pub get_row : ℕ → List A → Option A
  get_row key [] = none
  get_row key (r ∷ rs) = if id r == key then some r else get_row key rs

  -- Writing columns of the row with this key; the other rows stay.
  unfoldable pub update_row : ℕ → (A → A) → List A → List A
  update_row key f [] = []
  update_row key f (r ∷ rs) = if id r == key then f r ∷ rs else r ∷ update_row key f rs

  pub get_row-update_row :
      (key k : ℕ) (f : A → A) (rs : List A)
      → ((r : A) → id (f r) ≡ id r)
      → get_row k (update_row key f rs)
        ≡ (if key == k then Option.map f (get_row k rs) else get_row k rs)
  unfolding get_row update_row
  get_row-update_row key k f [] keeps = ground arith
  get_row-update_row key k f (r ∷ rs) keeps =
      ground (arith, keeps r, get_row-update_row key k f rs keeps)

  pub get_row-append :
      (k : ℕ) (rs ss : List A) (r : A) → get_row k rs ≡ some r → get_row k (rs ++ ss) ≡ some r
  unfolding get_row
  get_row-append k [] ss r h = cc
  get_row-append k (x ∷ rs) ss r h = ground (arith, get_row-append k rs ss r)

  pub id-get_row : (k : ℕ) (rs : List A) (r : A) → get_row k rs ≡ some r → id r ≡ k
  unfolding get_row
  id-get_row k [] r h = cc
  id-get_row k (x ∷ rs) r h = ground (arith, id-get_row k rs r)
