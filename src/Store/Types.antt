-- ===== src/Store/Types.antt =====
-- The string enumerations of backend/app/models/models.py as data types: statuses, kinds and codes.
use Prim.Native.Nat.{ℕ}
use mathlib.Core.Bool.{Bool}
use access_piliot.Prelude.{◌==◌}

-- `resource_type` and `entity_type` columns.
pub data ResourceType : Type 0 where
  group role application access_package business_role : ResourceType

abbrev pub type_tag : ResourceType → ℕ
type_tag group = 0
type_tag role = 1
type_tag application = 2
type_tag access_package = 3
type_tag business_role = 4

abbrev pub same_type : ResourceType → ResourceType → Bool
same_type a b = type_tag a == type_tag b

-- `AccessAssignment.status`.
pub data Status : Type 0 where
  pending_approval eligible scheduled active rejected revoked expired : Status

pub data AssignmentType : Type 0 where
  permanent temporary : AssignmentType

-- `User.account_type`: a normal person, or a privileged or test shadow account.
pub data AccountType : Type 0 where
  normal_account privileged_account test_account : AccountType

-- The rows of several tables are switched on and off by a status column.
pub data Switch : Type 0 where
  enabled disabled draft archived : Switch

-- `IdentityProvider.type`.
pub data ProviderType : Type 0 where
  entra okta active_directory csv mock : ProviderType

-- `WorkflowInstance.status` and `WorkflowStageInstance.status`.
pub data Progress : Type 0 where
  waiting approved refused cancelled skipped : Progress

pub data Decision : Type 0 where
  approve reject : Decision

pub data ApprovalMode : Type 0 where
  any_of all_of : ApprovalMode

-- `WorkflowInstance.subject_type`.
pub data SubjectType : Type 0 where
  assignment_subject user_attributes access_review_item nhi_review_item : SubjectType
  workflow_request : SubjectType

pub data Operator : Type 0 where
  equals not_equals contains not_contains starts_with not_starts_with : Operator
  ends_with not_ends_with : Operator
  other_operator : Operator

-- What the conditions of birthright rules read of a person (`CONDITION_FIELD_MAP`).
pub data UserField : Type 0 where
  department_field job_title_field status_field email_field employee_id_field : UserField
  employment_type_field employee_category_field manager_field : UserField

-- `EntitlementCatalogEntry.risk_tier`.
pub data RiskTier : Type 0 where
  low_risk medium_risk high_risk critical_risk : RiskTier

-- How the conditions of a rule are combined: `AND`, `OR`.
pub data Combination : Type 0 where
  all_conditions any_condition : Combination

-- `condition_field` of a workflow stage.
pub data Field : Type 0 where
  department job_title employment_type account_type : Field

pub data Side : Type 0 where
  side_a side_b : Side

-- `SodNotification.notification_type`.
pub data SodNotificationType : Type 0 where
  new_violation exception_expiring exception_expired exception_requested : SodNotificationType

-- `SodExceptionRequest.status`.
pub data RequestStatus : Type 0 where
  undecided request_granted request_denied : RequestStatus

-- `AccessReviewCampaign.status` and `.on_no_response`, and `AccessReviewItem.decision`.
pub data CampaignStatus : Type 0 where
  campaign_active campaign_completed : CampaignStatus

pub data NoResponse : Type 0 where
  keep_access revoke_access : NoResponse

pub data ReviewDecision : Type 0 where
  unreviewed certified withdrawn auto_withdrawn : ReviewDecision

-- `AuditLog.action`, of the actions that the modelled code records.
pub data AuditAction : Type 0 where
  assignment_created assignment_create_blocked assignment_activated assignment_deactivated :
      AuditAction
  assignment_revoked assignment_approved assignment_rejected assignment_expired : AuditAction
  cascade_activation_failed cascade_deactivation_failed cascade_revocation_failed : AuditAction
  account_auto_provisioned user_hierarchy_updated : AuditAction
  workflow_request_submitted workflow_stage_vote_recorded workflow_stage_approved : AuditAction
  workflow_stage_rejected workflow_request_cancelled workflow_stage_escalated : AuditAction
  birthright_policy_created birthright_policy_updated birthright_policy_deleted : AuditAction
  birthright_policy_rechecked : AuditAction
  package_created package_updated package_archived_entry package_deleted : AuditAction
  package_renamed_by_owner package_item_removed_by_owner package_assigned : AuditAction
  package_eligibility_updated package_requested : AuditAction
  business_role_created business_role_updated business_role_archived : AuditAction
  business_role_deleted business_role_assigned business_role_renamed_by_owner : AuditAction
  business_role_item_removed_by_owner : AuditAction
  sod_policy_created sod_policy_updated sod_policy_disabled sod_policy_deleted : AuditAction
  sod_exception_granted sod_exception_revoked sod_exception_requested : AuditAction
  sod_exception_request_denied : AuditAction
  workflow_definition_created workflow_definition_updated : AuditAction
  workflow_definition_deleted : AuditAction
  group_role_mapping_created group_role_mapping_updated group_role_mapping_deleted : AuditAction
  access_review_campaign_created access_review_campaign_updated : AuditAction
  access_review_campaign_completed access_review_item_decided : AuditAction

-- `Notification.notification_type`.
pub data NotificationType : Type 0 where
  assignment_pending_approval_note assignment_created_note assignment_approved_note :
      NotificationType
  assignment_rejected_note assignment_activated_note assignment_deactivated_note : NotificationType
  assignment_revoked_note manager_changed_note workflow_stage_pending_note : NotificationType
  workflow_request_rejected_note workflow_request_approved_note : NotificationType
  workflow_stage_escalated_note : NotificationType
  sod_exception_lapsed_note exception_request_granted_note exception_request_denied_note :
      NotificationType
  access_review_assigned_note access_review_item_decided_note : NotificationType
  access_review_recurrence_failed_note access_review_recurrence_created_note : NotificationType

-- The code of an `AccessPilotError`. A `GraphError` is passed on with its own code.
pub data Error : Type 0 where
  user_not_found group_not_found application_not_found role_not_found : Error
  provider_not_found assignment_not_found account_not_associated : Error
  application_role_not_found workflow_definition_not_found : Error
  workflow_definition_already_exists workflow_definition_has_history : Error
  group_role_mapping_not_found : Error
  workflow_definition_not_active sod_conflict request_already_processed : Error
  fallback_not_yet_available access_denied not_yet_eligible eligibility_expired : Error
  duration_exceeds_maximum provider_unavailable account_username_taken : Error
  provider_provisioning_disabled workflow_request_not_found workflow_stage_not_found : Error
  workflow_stage_already_decided workflow_request_already_decided : Error
  manager_cycle_detected : Error
  policy_not_found policy_name_taken policy_id_taken package_not_found : Error
  business_role_not_found validation_error audit_cannot_be_disabled : Error
  package_already_exists package_item_not_found package_must_have_item : Error
  duplicate_package_item package_archived package_empty group_empty not_eligible : Error
  workflow_required_for_high_risk_item business_role_already_exists : Error
  business_role_not_active business_role_empty business_role_item_not_found : Error
  business_role_must_have_item duplicate_business_role_item : Error
  entitlement_already_mapped : Error
  sod_policy_not_found sod_policy_name_taken sod_exception_not_found : Error
  sod_exception_request_not_found sod_notification_not_found : Error
  access_review_campaign_not_found access_review_item_not_found : Error
  access_review_item_routed_through_workflow inactive_user_check_unavailable : Error
  provider_error : ℕ → Error

-- `"AccessPilot.Admin" in actor_roles`: the other roles are told apart by a number.
pub data ActorRole : Type 0 where
  admin : ActorRole
  access_review_admin : ActorRole
  other_role : ℕ → ActorRole
