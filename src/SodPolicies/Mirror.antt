-- ===== src/SodPolicies/Mirror.antt =====
-- The open notifications about violations after a scan (`reconcile_sod_notifications` of
-- backend/app/services/sod.py).
use mathlib.Core.Path.{subst}
use access_piliot.Prelude.{
  ℕ, ◌+◌, ◌≡◌, refl, sym, Bool, true, false, not, ◌&&◌, ◌||◌, none, some, List, [], ◌∷◌, ◌++◌, ◌==◌,
  any, all, map, select, select-all, if◌then◌else◌, arith,
}
use access_piliot.Store.{
  Session, SodNotification, new_violation, ok, M, pure, gets, modify, commit, fresh_id, for_each,
  bind-known, ◌>>=◌, ◌>>◌,
}
use access_piliot.SodPolicies.Violations.{Violation}
use access_piliot.SodPolicies.Requests.{add_sod_notification}
use access_piliot.SodPolicies.Notices.{
  is_open_of, is_about, unannounced, resolve_gone, reconcile_violations,
}

module _ {A : Type 0} (p : A → Bool) where
  any-append : (xs ys : List A) → any p (xs ++ ys) ≡ (any p xs || any p ys)
  any-append [] ys = refl
  any-append (x ∷ xs) ys = ground (arith, any-append xs ys)

  all-append : (xs ys : List A) → all p (xs ++ ys) ≡ (all p xs && all p ys)
  all-append [] ys = refl
  all-append (x ∷ xs) ys = ground (arith, all-append xs ys)

-- Somebody is told of the violation.
abbrev pub is_announced : List SodNotification → Violation → Bool
is_announced notes v = any (λ n. is_open_of new_violation n && is_about n v) notes

-- An open notification has its violation.
abbrev pub is_grounded : List Violation → SodNotification → Bool
is_grounded vs n = not (is_open_of new_violation n) || any (is_about n) vs

abbrev note : ℕ → Violation → SodNotification
note key v = record {
  id = key;
  kind = new_violation;
  sod_policy_id = v.policy_id;
  user_id = v.user_id;
  sod_exception_id = none;
  sod_exception_request_id = none;
  read_at = none;
  resolved_at = none;
}

log_all : ℕ → List Violation → List SodNotification → List SodNotification
log_all key [] notes = notes
log_all key (v ∷ vs) notes = log_all (key + 1) vs (notes ++ note key v ∷ [])

log : List Violation → M (Unit {0})
log = for_each (λ v. add_sod_notification new_violation v.policy_id v.user_id none none)

logging :
    (vs : List Violation) (s : Session)
    → let (r, t) = log vs s in
      (r ≡ ok tt) × (t.db.sod_notifications ≡ log_all s.db.next_id vs s.db.sod_notifications)
unfolding log for_each add_sod_notification fresh_id modify ◌>>=◌ pure log_all
logging [] s = (refl, refl)
logging (v ∷ vs) s = logging vs _

is_about-note : (key : ℕ) (v : Violation) → is_about (note key v) v ≡ true
is_about-note key v = ground arith

module _ (w : Violation) where
  keeps_announced :
      (key : ℕ) (vs : List Violation) (notes : List SodNotification)
      → is_announced notes w ≡ true
      → is_announced (log_all key vs notes) w ≡ true
  unfolding log_all
  keeps_announced key [] notes h = h
  keeps_announced key (v ∷ vs) notes h = keeps_announced (key + 1) vs (notes ++ note key v ∷ []) (
      ground (
        arith,
        h,
        any-append (λ n. is_open_of new_violation n && is_about n w) notes (note key v ∷ []),
      ))

now_announced :
    (key : ℕ) (v : Violation) (notes : List SodNotification)
    → is_announced (notes ++ note key v ∷ []) v ≡ true
now_announced key v notes = ground (
  arith,
  is_about-note key v,
  any-append (λ n. is_open_of new_violation n && is_about n v) notes (note key v ∷ []),
)

all_announced :
    (key : ℕ) (vs : List Violation) (notes : List SodNotification)
    → all (is_announced (log_all key vs notes)) vs ≡ true
unfolding log_all
all_announced key [] notes = refl
all_announced key (v ∷ vs) notes =
    let notes' = notes ++ note key v ∷ [] in
    ground (
      arith,
      keeps_announced v (key + 1) vs notes' (now_announced key v notes),
      all_announced (key + 1) vs notes',
    )

keeps_grounded :
    (ws : List Violation) (key : ℕ) (vs : List Violation) (notes : List SodNotification)
    → all (λ v. any (λ w. (v.policy_id == w.policy_id) && (v.user_id == w.user_id)) ws) vs ≡ true
    → all (is_grounded ws) notes ≡ true
    → all (is_grounded ws) (log_all key vs notes) ≡ true
unfolding log_all
keeps_grounded ws key [] notes known h = h
keeps_grounded ws key (v ∷ vs) notes known h =
    keeps_grounded ws (key + 1) vs (notes ++ note key v ∷ []) (ground (arith, known))
      (ground (arith, h, known, all-append (is_grounded ws) notes (note key v ∷ [])))

abbrev same_case : Violation → Violation → Bool
same_case v w = (v.policy_id == w.policy_id) && (v.user_id == w.user_id)

known_behind :
    (x : Violation) (vs ws : List Violation)
    → all (λ v. any (same_case v) ws) vs ≡ true
    → all (λ v. any (same_case v) (x ∷ ws)) vs ≡ true
known_behind x [] ws h = refl
known_behind x (v ∷ vs) ws h = ground (arith, known_behind x vs ws)

all_known : (vs : List Violation) → all (λ v. any (same_case v) vs) vs ≡ true
all_known [] = refl
all_known (v ∷ vs) = ground (arith, known_behind v vs vs (all_known vs))

resolved : ℕ → (SodNotification → Bool) → List SodNotification → List SodNotification
resolved now still notes =
    map
      (λ n.
        if is_open_of new_violation n && not (still n)
        then record n { resolved_at = some now }
        else n)
      notes

module _ (now : ℕ) (vs : List Violation) where
  resolved-grounded :
      (notes : List SodNotification)
      → all (is_grounded vs) (resolved now (λ n. any (is_about n) vs) notes) ≡ true
  unfolding resolved
  resolved-grounded [] = refl
  resolved-grounded (n ∷ ns) = ground (arith, resolved-grounded ns)

select-cases :
    (p q : Violation → Bool) (ws : List Violation)
    → ((w : Violation) → q w ≡ false → p w ≡ true)
    → all p (select q ws) ≡ true
    → all p ws ≡ true
select-cases p q [] others h = refl
select-cases p q (w ∷ ws) others h = ground (arith, others w, select-cases p q ws others)

module _ (key : ℕ) (vs : List Violation) (notes : List SodNotification) where
  logged : List SodNotification
  logged = log_all key (unannounced vs notes) notes

  logged-announced : all (is_announced logged) vs ≡ true
  unfolding logged
  logged-announced =
      select-cases _ (λ v. not (is_announced notes v)) vs
        (λ w h. keeps_announced w key (unannounced vs notes) notes (ground (arith, h)))
        (all_announced key (unannounced vs notes) notes)

  logged-grounded : all (is_grounded vs) notes ≡ true → all (is_grounded vs) logged ≡ true
  unfolding logged
  logged-grounded =
      keeps_grounded vs key (unannounced vs notes) notes
        (select-all _ (λ v. any (same_case v) vs) _ vs (λ v p h. h) (all_known vs))

committed :
    (m : M (Unit {0})) (s : Session) (notes : List SodNotification)
    → ((m s).0 ≡ ok tt) × ((m s).1.db.sod_notifications ≡ notes)
    → let (r, t) = (m >> commit) s in
      (r ≡ ok tt) × (t.db.sod_notifications ≡ notes) × (t.saved ≡ t.db)
unfolding commit
committed m s notes (returned, same) =
    subst (λ x. (x.0 ≡ ok tt) × (x.1.db.sod_notifications ≡ notes) × (x.1.saved ≡ x.1.db))
      (sym (bind-known m (λ u. commit) s tt returned)) (refl, same, refl)

reconciled :
    (vs : List Violation) (s : Session)
    → let (r, t) = reconcile_violations vs s in
      (r ≡ ok tt)
      × (t.db.sod_notifications
          ≡ logged s.db.next_id vs
              (resolved s.now (λ n. any (is_about n) vs) s.db.sod_notifications))
      × (t.saved ≡ t.db)
unfolding log reconcile_violations resolve_gone modify ◌>>=◌ gets resolved logged
reconciled vs s =
    let s' = (resolve_gone new_violation (λ n. any (is_about n) vs) s).1 in
    let fresh = unannounced vs s'.db.sod_notifications in
    committed (log fresh) s' _ (logging fresh s')

-- After the scan was recorded, each violation that was found has an open notification, each open
-- notification of a violation is about one that was found, and the log is committed.
pub reconcile_violations-mirrored :
    (vs : List Violation) (s : Session)
    → let (r, t) = reconcile_violations vs s in
      (r ≡ ok tt)
      × (all (is_announced t.db.sod_notifications) vs ≡ true)
      × (all (is_grounded vs) t.db.sod_notifications ≡ true)
      × (t.saved ≡ t.db)
reconcile_violations-mirrored vs s =
    let (returned, notes, saved) = reconciled vs s in
    let old = resolved s.now (λ n. any (is_about n) vs) s.db.sod_notifications in
    (
      returned,
      subst (λ ns. all (is_announced ns) vs ≡ true) (sym notes)
          (logged-announced s.db.next_id vs old),
      subst (λ ns. all (is_grounded vs) ns ≡ true) (sym notes)
          (logged-grounded s.db.next_id vs old (resolved-grounded s.now vs s.db.sod_notifications)),
      saved,
    )
