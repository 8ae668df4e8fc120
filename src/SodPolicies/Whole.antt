-- ===== src/SodPolicies/Whole.antt =====
-- The database, while the tables of Separation of Duties are edited
-- (backend/app/services/sod.py).
use access_piliot.Prelude.{
  ℕ, ◌≡◌, refl, Bool, true, false, not, any, List, [], ◌∷◌, ◌++◌, ◌==◌, map, select, select-all,
  update_row, arith,
}
use access_piliot.Store.{
  Db, SodPolicy, SodPolicyEntity, SodException, SodNotification, SodExceptionRequest,
}
use access_piliot.SodPolicies.Editing.{SodPolicyEntityCreate, policy_entity, has_history}
use access_piliot.SodPolicies.Requests.{resolve_first}
use access_piliot.SodPolicies.Referenced.{
  names_policy, names_policy-last, refers-append, refers-update, refers-add, refers-delete, refers,
  refers-entities, refers-update_row, is_whole,
}

module _ (db : Db) (whole : is_whole db ≡ true) where
  pub whole-created :
      (p : SodPolicy) (es : List SodPolicyEntityCreate)
      → is_whole (record db {
        sod_policies = db.sod_policies ++ p ∷ [];
        sod_entities = db.sod_entities ++ map (policy_entity p.id) es;
      })
        ≡ true
  whole-created p es =
      let ps = db.sod_policies in
      ground (
        arith,
        whole,
        refers-add (λ (e : SodPolicyEntity). e.sod_policy_id) (ps ++ p ∷ []) db.sod_entities
            (map (policy_entity p.id) es),
        refers-append (λ (e : SodPolicyEntity). e.sod_policy_id) ps (p ∷ []) db.sod_entities,
        refers-append (λ (e : SodException). e.sod_policy_id) ps (p ∷ []) db.sod_exceptions,
        refers-append (λ (n : SodNotification). n.sod_policy_id) ps (p ∷ []) db.sod_notifications,
        refers-append (λ (r : SodExceptionRequest). r.sod_policy_id) ps (p ∷ [])
            db.sod_exception_requests,
        refers-entities p.id (ps ++ p ∷ []) es (names_policy-last p ps),
      )

  pub whole-exception :
      (e : SodException)
      → names_policy db.sod_policies e.sod_policy_id ≡ true
      → is_whole (record db { sod_exceptions = db.sod_exceptions ++ e ∷ [] }) ≡ true
  whole-exception e h = ground (
    arith,
    whole,
    h,
    refers-add (λ (e : SodException). e.sod_policy_id) db.sod_policies db.sod_exceptions (e ∷ []),
  )

  pub whole-notification :
      (n : SodNotification)
      → names_policy db.sod_policies n.sod_policy_id ≡ true
      → is_whole (record db { sod_notifications = db.sod_notifications ++ n ∷ [] }) ≡ true
  whole-notification n h = ground (
    arith,
    whole,
    h,
    refers-add (λ (n : SodNotification). n.sod_policy_id) db.sod_policies db.sod_notifications
        (n ∷ []),
  )

  pub whole-request :
      (r : SodExceptionRequest)
      → names_policy db.sod_policies r.sod_policy_id ≡ true
      → is_whole (record db { sod_exception_requests = db.sod_exception_requests ++ r ∷ [] }) ≡ true
  whole-request r h = ground (
    arith,
    whole,
    h,
    refers-add (λ (r : SodExceptionRequest). r.sod_policy_id) db.sod_policies
        db.sod_exception_requests (r ∷ []),
  )

  pub whole-updated :
      (key : ℕ) (f : SodPolicy → SodPolicy)
      → ((p : SodPolicy) → (f p).id ≡ p.id)
      → is_whole (record db { sod_policies = update_row (λ p. p.id) key f db.sod_policies }) ≡ true
  whole-updated key f keeps =
      let ps = db.sod_policies in
      ground (
        arith,
        whole,
        refers-update (λ (e : SodPolicyEntity). e.sod_policy_id) key f ps db.sod_entities keeps,
        refers-update (λ (e : SodException). e.sod_policy_id) key f ps db.sod_exceptions keeps,
        refers-update (λ (n : SodNotification). n.sod_policy_id) key f ps db.sod_notifications
            keeps,
        refers-update (λ (r : SodExceptionRequest). r.sod_policy_id) key f ps
            db.sod_exception_requests keeps,
      )

  pub whole-removed :
      (key : ℕ)
      → is_whole
          (record db { sod_entities = select (λ e. not (e.sod_policy_id == key)) db.sod_entities })
        ≡ true
  whole-removed key =
      let test = λ (e : SodPolicyEntity). names_policy db.sod_policies e.sod_policy_id in
      ground (
        arith,
        whole,
        select-all (λ (e : SodPolicyEntity). not (e.sod_policy_id == key)) test test db.sod_entities
            (λ e p h. h),
      )

  pub whole-entities :
      (key : ℕ) (es : List SodPolicyEntityCreate)
      → names_policy db.sod_policies key ≡ true
      → is_whole (record db { sod_entities = db.sod_entities ++ map (policy_entity key) es }) ≡ true
  whole-entities key es h =
      let ps = db.sod_policies in
      ground (
        arith,
        whole,
        refers-entities key ps es h,
        refers-add (λ (e : SodPolicyEntity). e.sod_policy_id) ps db.sod_entities
            (map (policy_entity key) es),
      )

  pub whole-decided :
      (key : ℕ) (f : SodExceptionRequest → SodExceptionRequest)
      → ((r : SodExceptionRequest) → (f r).sod_policy_id ≡ r.sod_policy_id)
      → is_whole (record db {
        sod_exception_requests = update_row (λ r. r.id) key f db.sod_exception_requests;
      })
        ≡ true
  whole-decided key f keeps = ground (
    arith,
    whole,
    refers-update_row (λ (r : SodExceptionRequest). r.sod_policy_id) (λ r. r.id) key f
        db.sod_policies db.sod_exception_requests keeps,
  )

any-removed :
    (key : ℕ) (es : List SodPolicyEntity)
    → any (λ e. e.sod_policy_id == key) (select (λ e. not (e.sod_policy_id == key)) es) ≡ false
any-removed key [] = refl
any-removed key (e ∷ es) = ground (arith, any-removed key es)

module _ (db : Db) (whole : is_whole db ≡ true) where
  pub whole-deleted :
      (key : ℕ)
      → has_history key db ≡ false
      → is_whole (record db {
        sod_entities = select (λ e. not (e.sod_policy_id == key)) db.sod_entities;
        sod_policies = select (λ p. not (p.id == key)) db.sod_policies;
      })
        ≡ true
  whole-deleted key unused =
      let ps = db.sod_policies in
      let kept = select (λ e. not (e.sod_policy_id == key)) db.sod_entities in
      ground (
        arith,
        whole,
        unused,
        whole-removed db whole key,
        refers-delete (λ (e : SodPolicyEntity). e.sod_policy_id) key ps kept
            (any-removed key db.sod_entities),
        refers-delete (λ (e : SodException). e.sod_policy_id) key ps db.sod_exceptions,
        refers-delete (λ (n : SodNotification). n.sod_policy_id) key ps db.sod_notifications,
        refers-delete (λ (r : SodExceptionRequest). r.sod_policy_id) key ps
            db.sod_exception_requests,
      )

resolve_first-refers :
    (p : SodNotification → Bool) (now : ℕ) (ps : List SodPolicy) (ns : List SodNotification)
    → refers (λ n. n.sod_policy_id) ps (resolve_first p now ns)
      ≡ refers (λ n. n.sod_policy_id) ps ns
resolve_first-refers p now ps [] = refl
resolve_first-refers p now ps (n ∷ ns) = ground (arith, resolve_first-refers p now ps ns)

pub whole-resolved :
    (db : Db) (p : SodNotification → Bool) (now : ℕ)
    → is_whole db ≡ true
    → is_whole (record db { sod_notifications = resolve_first p now db.sod_notifications }) ≡ true
whole-resolved db p now whole =
    ground (arith, whole, resolve_first-refers p now db.sod_policies db.sod_notifications)
