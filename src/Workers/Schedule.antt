-- ===== src/Workers/Schedule.antt =====
-- When a directory is due for its next synchronisation (backend/app/workers/scheduler.py).
use mathlib.Core.Logic.{◌↔◌}
use access_piliot.Prelude.{
  ℕ, zero, suc, ◌+◌, ◌*◌, ◌≤◌, ◌<◌, ◌≡◌, refl, ◌⊎◌, inl, inr, true, Option, none, some, arith,
}
use access_piliot.Store.{Provider}
use access_piliot.Workers.{is_sync_due, by_interval}

by_interval_iff :
    (interval last : Option ℕ) (now : ℕ)
    → (by_interval interval last now ≡ true) ↔ (
        (n : ℕ) × (interval ≡ some n)
        × (0 < n)
        × ((last ≡ none) ⊎ ((t : ℕ) × (last ≡ some t) × (t + 60 * n ≤ now))))
by_interval_iff none last now = (λ h. ground arith, λ (n, e, p, q). ground arith)
by_interval_iff (some zero) last now = (λ h. ground arith, λ (n, e, p, q). ground arith)
by_interval_iff (some (suc n)) none now = (λ h. (suc n, refl, ground arith, inl refl), λ h. refl)
by_interval_iff (some (suc n)) (some t) now =
    (λ h. (suc n, refl, ground arith, inr (t, refl, ground arith)), λ (m, e, p, q). ground arith)

-- A directory is due exactly when its interval is set and positive and it never ran or that many
-- minutes have passed since its last run.
pub is_sync_due_iff :
    (p : Provider) (now : ℕ)
    → (is_sync_due p now ≡ true) ↔ (
        (n : ℕ) × (p.sync_interval_minutes ≡ some n)
        × (0 < n)
        × ((p.last_sync_at ≡ none) ⊎ ((t : ℕ) × (p.last_sync_at ≡ some t) × (t + 60 * n ≤ now))))
unfolding is_sync_due
is_sync_due_iff p now = by_interval_iff p.sync_interval_minutes p.last_sync_at now
