-- ===== src/Store/Records.antt =====
-- backend/app/services/audit.py and the write of backend/app/services/notifications.py: a row is
-- added to the session, and the caller commits it. Texts and metadata are not modelled.
use access_piliot.Prelude.{ℕ, Bool, Option, ◌∷◌}
use access_piliot.Store.Types.{AuditAction, NotificationType}
use access_piliot.Store.Running.{M, modify}

unfoldable pub record_audit : AuditAction → Option ℕ → Option ℕ → Option ℕ → Bool → M (Unit {0})
record_audit action target provider actor success s =
    modify
      (λ db. record db {
        audit =
            record {
              action = action;
              target_id = target;
              provider_id = provider;
              actor_user_id = actor;
              success = success;
              timestamp = s.now;
            }
            ∷ db.audit;
      })
      s

unfoldable pub create_notification : ℕ → NotificationType → M (Unit {0})
create_notification user kind =
    modify
      λ db. record db { notifications = record { user_id = user; kind = kind } ∷ db.notifications }
