-- ===== src/SodPolicies/Known.antt =====
-- What the edits of Separation of Duties are made of (backend/app/services/sod.py): each step leaves
-- the tables whole, some where the policy is known.
use mathlib.Core.Path.{subst}
use access_piliot.Prelude.{
  ℕ, ◌+◌, ◌≡◌, refl, sym, ◌∙◌, Bool, true, false, not, Option, none, some, List, [], ◌∷◌, ◌++◌,
  ◌==◌, map, select,
}
use access_piliot.Store.{
  Db, Session, SodPolicy, SodPolicyEntity, SodException, SodNotification, SodNotificationType,
  SodExceptionRequest, exception_requested, Switch, SodSettings, AuditAction, NotificationType,
  Text, M, Preserves, From, From-Preserves, Preserves-From, From-bind, From-gets, From-or_raise,
  From-raise_if, From-if, Preserves-bind, Preserves-gets, Preserves-or_raise, Preserves-raise_if,
  preserving_rules, pure, gets, or_raise, modify, commit, fresh_id, ◌>>=◌, ◌>>◌, record_audit,
  create_notification, sod_policy_not_found,
}
use access_piliot.Sod.{settings_or_default, get_sod_notification_settings}
use access_piliot.SodPolicies.Editing.{
  SodPolicyEntityCreate, policy_entity, dedupe_entities, sod_policy_by, get_sod_policy,
  add_entities, remove_entities, update_policy, has_history,
}
use access_piliot.SodPolicies.Exceptions.{insert_exception}
use access_piliot.SodPolicies.Requests.{
  add_sod_notification, update_request, is_open_notice, resolve_notice, take_up, tell_requester,
}
use access_piliot.SodPolicies.Whole.{
  whole-created, whole-exception, whole-notification, whole-request, whole-updated, whole-removed,
  whole-entities, whole-decided, whole-deleted, whole-resolved,
}
use access_piliot.SodPolicies.Referenced.{
  names_policy, names_policy-update, names_policy-found, is_whole,
}

abbrev pub IsWhole : Session → Type 0
IsWhole s = is_whole s.db ≡ true

abbrev pub Names : ℕ → Session → Type 0
Names key s = names_policy s.db.sod_policies key ≡ true

settings_or_default-IsWhole :
    (key : ℕ) (o : Option SodSettings)
    → Preserves (λ s. Names key s × IsWhole s) (settings_or_default o)
unfolding settings_or_default modify commit pure ◌>>=◌
settings_or_default-IsWhole key none = record { at = λ s h. h }
settings_or_default-IsWhole key (some c) = record { at = λ s h. h }

pub settings-IsWhole :
    (key : ℕ) → Preserves (λ s. Names key s × IsWhole s) get_sod_notification_settings
unfolding get_sod_notification_settings
settings-IsWhole key = search (preserving_rules, settings_or_default-IsWhole)

-- Behind the look-up of a policy it is known.
module _ {A : Type 0} where
  pub From-get_sod_policy :
      (key : ℕ) (f : SodPolicy → M A)
      → ((p : SodPolicy) → From (Names key) IsWhole (f p))
      → Preserves IsWhole (get_sod_policy key >>= f)
  unfolding get_sod_policy ◌>>=◌ gets or_raise
  From-get_sod_policy key f kf = record { at = λ s h. found s (sod_policy_by key s.db) refl h }
    where
      found :
          (s : Session) (o : Option SodPolicy)
          → sod_policy_by key s.db ≡ o
          → IsWhole s
          → IsWhole ((or_raise o sod_policy_not_found >>= f) s).1
      found s none e h = h
      found s (some p) e h = (kf p).at s (names_policy-found key s.db.sod_policies p e) h

-- The policy is known all the while.
abbrev pub Both : ℕ → Session → Type 0
Both key s = Names key s × IsWhole s

module _ {A : Type 0} (key : ℕ) {m : M A} where
  pub known-From : Preserves (Both key) m → From (Names key) IsWhole m
  known-From k = record { at = λ s known h. (k.at s (known, h)).1 }

module _ (key : ℕ) where
  pub fresh_id-Both : Preserves (Both key) fresh_id
  unfolding fresh_id
  fresh_id-Both = record { at = λ s h. h }

  pub commit-Both : Preserves (Both key) commit
  unfolding commit
  commit-Both = record { at = λ s h. h }

  pub record_audit-Both :
      (a : AuditAction) (target provider actor : Option ℕ) (b : Bool)
      → Preserves (Both key) (record_audit a target provider actor b)
  unfolding record_audit modify
  record_audit-Both a target provider actor b = record { at = λ s h. h }

  pub update_policy-Both :
      (name : Text) (status : Switch)
      → Preserves (Both key) (update_policy key (λ p. record p { name = name; status = status }))
  unfolding update_policy modify
  update_policy-Both name status = record {
    at = λ s h. (
      names_policy-update key key _ s.db.sod_policies (λ p. refl) ∙ h.0,
      whole-updated s.db h.1 key _ (λ p. refl),
    );
  }

  pub remove_entities-Both : Preserves (Both key) (remove_entities key)
  unfolding remove_entities modify
  remove_entities-Both = record { at = λ s h. (h.0, whole-removed s.db h.1 key) }

  pub add_entities-Both :
      (es : List SodPolicyEntityCreate) → Preserves (Both key) (add_entities key es)
  unfolding add_entities modify
  add_entities-Both es = record {
    at = λ s h. (h.0, whole-entities s.db h.1 key (dedupe_entities es) h.0);
  }

  pub insert_exception-Both :
      (user expires : ℕ) → Preserves (Both key) (insert_exception key user expires)
  unfolding insert_exception fresh_id modify pure ◌>>=◌
  insert_exception-Both user expires = record { at = λ s h. (h.0, whole-exception s.db h.1 _ h.0) }

  pub add_sod_notification-Both :
      (kind : SodNotificationType) (user : ℕ) (exception request : Option ℕ)
      → Preserves (Both key) (add_sod_notification kind key user exception request)
  unfolding add_sod_notification fresh_id modify ◌>>=◌
  add_sod_notification-Both kind user exception request = record {
    at = λ s h. (h.0, whole-notification s.db h.1 _ h.0);
  }

  pub add_request-Both :
      (r : SodExceptionRequest)
      → r.sod_policy_id ≡ key
      → Preserves
          (Both key)
          (modify λ db. record db { sod_exception_requests = db.sod_exception_requests ++ r ∷ [] })
  unfolding modify
  add_request-Both r e = record {
    at = λ s h. (h.0, whole-request s.db h.1 r (subst (λ k. Names k s) (sym e) h.0));
  }

pub ruleset both_rules = (
  preserving_rules, fresh_id-Both, commit-Both, record_audit-Both, update_policy-Both,
  remove_entities-Both, add_entities-Both, insert_exception-Both, add_sod_notification-Both,
  settings-IsWhole,
)

module _ {A : Type 0} where
  pub creating :
      (row : ℕ → SodPolicy) (es : List SodPolicyEntityCreate) (f : ℕ → M A)
      → ((k : ℕ) → (row k).id ≡ k)
      → ((k : ℕ) → Preserves IsWhole (f k))
      → Preserves IsWhole (do
        key ← fresh_id
        modify (λ db. record db { sod_policies = db.sod_policies ++ row key ∷ [] })
        add_entities key es
        f key)
  unfolding fresh_id modify add_entities ◌>>=◌
  creating row es f keyed kf = record {
    at = λ s h. (kf s.db.next_id).at _ (
        subst
          (λ k.
            is_whole (record s.db {
              next_id = s.db.next_id + 1;
              sod_policies = s.db.sod_policies ++ row s.db.next_id ∷ [];
              sod_entities = s.db.sod_entities ++ map (policy_entity k) (dedupe_entities es);
            })
            ≡ true)
          (keyed s.db.next_id) (whole-created s.db h (row s.db.next_id) (dedupe_entities es)));
  }

  pub deleting :
      (key : ℕ) (f : M A)
      → Preserves IsWhole f
      → From
          (λ s. Names key s × (has_history key s.db ≡ false))
          IsWhole
          (do
            remove_entities key
            modify
                (λ db. record db { sod_policies = select (λ p. not (p.id == key)) db.sod_policies })
            f)
  unfolding remove_entities modify ◌>>=◌
  deleting key f kf = record { at = λ s known h. kf.at _ (whole-deleted s.db h key known.1) }

module _ where
  pub commit-IsWhole : Preserves IsWhole commit
  unfolding commit
  commit-IsWhole = record { at = λ s h. h }

  pub record_audit-IsWhole :
      (a : AuditAction) (target provider actor : Option ℕ) (b : Bool)
      → Preserves IsWhole (record_audit a target provider actor b)
  unfolding record_audit modify
  record_audit-IsWhole a target provider actor b = record { at = λ s h. h }

  pub update_policy-IsWhole :
      (key : ℕ) (f : SodPolicy → SodPolicy)
      → ((p : SodPolicy) → (f p).id ≡ p.id)
      → Preserves IsWhole (update_policy key f)
  unfolding update_policy modify
  update_policy-IsWhole key f keeps = record { at = λ s h. whole-updated s.db h key f keeps }

  pub update_request-IsWhole :
      (key : ℕ) (f : SodExceptionRequest → SodExceptionRequest)
      → ((r : SodExceptionRequest) → (f r).sod_policy_id ≡ r.sod_policy_id)
      → Preserves IsWhole (update_request key f)
  unfolding update_request modify
  update_request-IsWhole key f keeps = record { at = λ s h. whole-decided s.db h key f keeps }

  pub resolve_notice-IsWhole : (key : ℕ) → Preserves IsWhole (resolve_notice key)
  unfolding resolve_notice gets modify ◌>>=◌
  resolve_notice-IsWhole key = record {
    at = λ s h. whole-resolved s.db (is_open_notice key) s.now h;
  }

  pub take_up-IsWhole : (key : ℕ) → Preserves IsWhole (take_up key)
  unfolding take_up
  take_up-IsWhole key = search preserving_rules

  pub tell_requester-IsWhole :
      (o : Option ℕ) (note : NotificationType) → Preserves IsWhole (tell_requester o note)
  unfolding tell_requester create_notification modify pure
  tell_requester-IsWhole none note = record { at = λ s h. h }
  tell_requester-IsWhole (some u) note = record { at = λ s h. h }

pub ruleset whole_rules = (
  preserving_rules, commit-IsWhole, record_audit-IsWhole, resolve_notice-IsWhole, take_up-IsWhole,
  tell_requester-IsWhole,
)
