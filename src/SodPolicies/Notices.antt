-- ===== src/SodPolicies/Notices.antt =====
-- The log of notifications of Separation of Duties (`reconcile_sod_notifications`,
-- `mark_sod_notification_read`, `mark_all_sod_notifications_read` of backend/app/services/sod.py).
use access_piliot.Prelude.{
  ℕ, ◌+◌, ◌*◌, Bool, not, ◌&&◌, Option, none, some, List, ◌==◌, if◌then◌else◌, same_id, any, map,
  select, is_some, leb, get_row, update_row,
}
use access_piliot.Store.{
  Session, SodException, SodNotification, SodNotificationType, new_violation, exception_expiring,
  exception_expired, exception_requested, sod_notification_not_found, M, pure, gets, or_raise,
  modify, commit, for_each, ◌>>=◌, ◌>>◌,
}
use access_piliot.Sod.{get_sod_notification_settings, non_empty}
use access_piliot.SodPolicies.Violations.{Violation, get_sod_violations}
use access_piliot.SodPolicies.Exceptions.{is_in_force, is_lapsed, get_active_sod_exception}
use access_piliot.SodPolicies.Requests.{add_sod_notification}

abbrev kind_tag : SodNotificationType → ℕ
kind_tag new_violation = 0
kind_tag exception_expiring = 1
kind_tag exception_expired = 2
kind_tag exception_requested = 3

abbrev pub is_open_of : SodNotificationType → SodNotification → Bool
is_open_of kind n = (kind_tag n.kind == kind_tag kind) && not (is_some n.resolved_at)

-- The open notifications of the kind whose cause is gone are resolved.
unfoldable pub resolve_gone : SodNotificationType → (SodNotification → Bool) → M (Unit {0})
resolve_gone kind still = do
  now ← gets (λ s. s.now)
  modify λ db. record db {
    sod_notifications =
        map
          (λ n.
            if is_open_of kind n && not (still n) then record n { resolved_at = some now } else n)
          db.sod_notifications;
  }

abbrev pub is_about : SodNotification → Violation → Bool
is_about n v = (n.sod_policy_id == v.policy_id) && (n.user_id == v.user_id)

abbrev pub unannounced : List Violation → List SodNotification → List Violation
unannounced vs notes =
    select (λ v. not (any (λ n. is_open_of new_violation n && is_about n v) notes)) vs

unfoldable pub reconcile_violations : List Violation → M (Unit {0})
unfolding resolve_gone add_sod_notification
reconcile_violations violations = do
  resolve_gone new_violation (λ n. any (is_about n) violations)
  fresh ← gets (λ s. unannounced violations s.db.sod_notifications)
  for_each (λ v. add_sod_notification new_violation v.policy_id v.user_id none none) fresh
  commit

abbrev is_of : SodNotification → SodException → Bool
is_of n e = same_id n.sod_exception_id (some e.id)

abbrev unannounced_exceptions :
    SodNotificationType → List SodException → List SodNotification → List SodException
unannounced_exceptions kind es notes =
    select (λ e. not (any (λ n. is_open_of kind n && is_of n e) notes)) es

-- The exceptions for which an open notification of the kind has to stand.
unfoldable pub reconcile_exceptions : SodNotificationType → List SodException → M (Unit {0})
unfolding resolve_gone add_sod_notification
reconcile_exceptions kind es = do
  resolve_gone kind (λ n. any (is_of n) es)
  fresh ← gets (λ s. unannounced_exceptions kind es s.db.sod_notifications)
  for_each (λ e. add_sod_notification kind e.sod_policy_id e.user_id (some e.id) none) fresh
  commit

abbrev days : ℕ → ℕ
days n = n * 86400

abbrev pub expiring : ℕ → Session → List SodException
expiring warning s =
    select (λ e. is_in_force s.now e && leb e.expires_at (s.now + days warning)) s.db.sod_exceptions

abbrev pub still_violated : List Violation → Session → List SodException
still_violated violations s =
    select
      (λ e.
        is_lapsed s.now e
        && any (λ v. (v.policy_id == e.sod_policy_id) && (v.user_id == e.user_id)) violations
        && not (is_some (get_active_sod_exception e.sod_policy_id e.user_id s)))
      s.db.sod_exceptions

abbrev violations_or : Option (List Violation) → M (List Violation)
violations_or none = get_sod_violations none
violations_or (some vs) = pure vs

unfoldable pub scan_and_reconcile : M (Option (List Violation))
unfolding reconcile_violations
scan_and_reconcile = do
  violations ← get_sod_violations none
  reconcile_violations violations
  pure (some violations)

unfoldable pub reconcile_sod_notifications : M (Unit {0})
unfolding scan_and_reconcile reconcile_exceptions get_sod_notification_settings
reconcile_sod_notifications = do
  settings ← get_sod_notification_settings
  scanned ← if settings.notify_on_new_violation then scan_and_reconcile else pure none
  if settings.notify_on_exception_expiring
      then (do
        soon ← gets (expiring settings.exception_expiring_warning_days)
        reconcile_exceptions exception_expiring soon
        violations ← violations_or scanned
        left ← gets (still_violated violations)
        reconcile_exceptions exception_expired left)
      else pure tt

abbrev mark_read : ℕ → SodNotification → SodNotification
mark_read now n = record n { read_at = some now }

unfoldable pub mark_sod_notification_read : ℕ → M (Unit {0})
mark_sod_notification_read key = do
  found ← gets (λ s. get_row (λ n. n.id) key s.db.sod_notifications)
  n ← or_raise found sod_notification_not_found
  now ← gets (λ s. s.now)
  if is_some n.read_at then pure tt else (do
    modify λ db. record db {
      sod_notifications = update_row (λ m. m.id) key (mark_read now) db.sod_notifications;
    }
    commit)

abbrev is_unread : SodNotification → Bool
is_unread n = not (is_some n.read_at)

unfoldable pub mark_all_sod_notifications_read : M (Unit {0})
mark_all_sod_notifications_read = do
  unread ← gets (λ s. select is_unread s.db.sod_notifications)
  now ← gets (λ s. s.now)
  if non_empty unread
      then (do
        modify λ db. record db {
          sod_notifications =
              map (λ n. if is_unread n then mark_read now n else n) db.sod_notifications;
        }
        commit)
      else pure tt
