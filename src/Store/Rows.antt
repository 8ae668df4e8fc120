-- ===== src/Store/Rows.antt =====
-- The rows of the tables in backend/app/models/models.py, with the columns that the modelled code
-- reads or writes. Keys, directory identifiers and the names of app roles are numbers, `ℕ`; a time
-- is a number of seconds; a text is the list of its code points.
use Prim.Native.Nat.{ℕ}
use mathlib.Core.Bool.{Bool}
use mathlib.Core.Option.{Option}
use mathlib.Core.List.{List}
use access_piliot.Store.Types.{
  ResourceType, Status, AssignmentType, AccountType, Switch, ProviderType, Progress, Decision,
  ApprovalMode, SubjectType, Operator, Field, Side, AuditAction, NotificationType, UserField,
  Combination, RiskTier, SodNotificationType, RequestStatus, CampaignStatus, NoResponse,
  ReviewDecision,
}

abbrev pub Text : Type 0
Text = List ℕ

pub record Provider : Type 0 where
  pub id : ℕ
  pub type : ProviderType
  pub max_self_activation_hours : ℕ
  pub provision_joiners : Bool
  pub sync_interval_minutes : Option ℕ
  pub last_sync_at : Option ℕ

pub record User : Type 0 where
  pub id : ℕ
  pub provider_id : ℕ
  pub external_id : ℕ
  pub email : Text
  pub employee_id : Option Text
  pub department : Option Text
  pub job_title : Option Text
  pub employment_type : Option Text
  pub account_type : AccountType
  pub linked_user_id : Option ℕ
  pub employee_category : Option Text
  pub manager_id : Option ℕ
  pub is_disabled : Bool

pub record Account : Type 0 where
  pub id : ℕ
  pub user_id : ℕ
  pub provider_id : ℕ
  pub external_id : ℕ
  pub is_disabled : Bool
  pub is_deleted : Bool

-- A `Group`, `Role` or `Application`; `app_roles` is used by the last one only.
pub record Resource : Type 0 where
  pub id : ℕ
  pub provider_id : ℕ
  pub external_id : ℕ
  pub app_roles : List ℕ

pub record UserGroup : Type 0 where
  pub user_id : ℕ
  pub group_id : ℕ

pub record Assignment : Type 0 where
  pub id : ℕ
  pub provider_id : ℕ
  pub user_id : ℕ
  pub resource_type : ResourceType
  pub resource_id : ℕ
  pub app_role : Option ℕ
  pub assignment_type : AssignmentType
  pub status : Status
  pub start_time : Option ℕ
  pub expiration_time : Option ℕ
  pub requested_by : Option ℕ
  pub approved_by : Option ℕ
  pub fallback_approver_id : Option ℕ
  pub fallback_unlock_at : Option ℕ
  pub bypass_activation : Bool
  pub created_at : ℕ
  pub birthright_policy_id : Option ℕ
  pub group_role_mapping_id : Option ℕ
  pub business_role_id : Option ℕ
  pub role_assignment_id : Option ℕ
  pub dynamic_group_id : Option ℕ
  pub workflow_instance_id : Option ℕ
  pub activated_at : Option ℕ
  pub revoked_at : Option ℕ

pub record Mapping : Type 0 where
  pub id : ℕ
  pub source_group_id : ℕ
  pub resource_type : ResourceType
  pub resource_id : ℕ
  pub app_role : Option ℕ
  pub assignment_type : AssignmentType
  pub status : Switch

pub record BusinessRole : Type 0 where
  pub id : ℕ
  pub name : Text
  pub status : Switch

pub record Package : Type 0 where
  pub id : ℕ
  pub name : Text
  pub status : Switch
  pub default_approver_id : Option ℕ
  pub default_fallback_approver_id : Option ℕ
  pub fallback_unlock_hours : Option ℕ
  pub workflow_definition_id : Option ℕ

pub record PackageOwner : Type 0 where
  pub package_id : ℕ
  pub user_id : ℕ

-- Who may ask for a package: `principal_type` with `principal_id`.
pub data Principal : Type 0 where
  user_principal group_principal : ℕ → Principal

pub record PackageEligibility : Type 0 where
  pub package_id : ℕ
  pub principal : Principal

pub record CatalogEntry : Type 0 where
  pub resource_type : ResourceType
  pub resource_id : ℕ
  pub app_role : Option ℕ
  pub risk_tier : RiskTier

pub record BusinessRoleOwner : Type 0 where
  pub role_id : ℕ
  pub user_id : ℕ

-- A row of `BusinessRoleItem` or of `AccessPackageItem`.
pub record Item : Type 0 where
  pub id : ℕ
  pub owner_id : ℕ
  pub resource_type : ResourceType
  pub resource_id : ℕ
  pub app_role : Option ℕ

-- What a condition asks of a value. A list is given to `IN` and `NOT_IN` only.
pub data RuleTest : Type 0 where
  compares_to : Operator → Text → RuleTest
  is_in is_not_in : List Text → RuleTest

pub record RuleCondition : Type 0 where
  pub field : UserField
  pub test : RuleTest

-- One entry of `actions_json`.
pub record ActionSpec : Type 0 where
  pub resource_type : ResourceType
  pub resource_id : ℕ
  pub app_role : Option ℕ
  pub assignment_type : AssignmentType

-- The target of a policy with a single grant; both columns are set, or neither.
pub record SingleTarget : Type 0 where
  pub resource_type : ResourceType
  pub resource_id : ℕ
  pub app_role : Option ℕ

pub record BirthrightPolicy : Type 0 where
  pub id : ℕ
  pub name : Text
  pub match_field : Option UserField
  pub match_value : Option Text
  pub target : Option SingleTarget
  pub assignment_type : AssignmentType
  pub status : Switch
  pub external_policy_id : Option Text
  pub scope_identity_type : Option Text
  pub conditions : List RuleCondition
  pub conditions_operator : Combination
  pub actions : List ActionSpec
  pub reconciliation_enabled : Bool

-- `AccessPackageAssignment`: which package a grant came from, and in which batch.
pub record PackageLink : Type 0 where
  pub package_id : ℕ
  pub package_assignment_id : ℕ
  pub assignment_id : ℕ
  pub user_id : ℕ

pub record SodSettings : Type 0 where
  pub cooldown_enabled : Bool
  pub cooldown_hours : ℕ
  pub notify_on_new_violation : Bool
  pub notify_on_exception_expiring : Bool
  pub exception_expiring_warning_days : ℕ
  pub notify_on_exception_requested : Bool

pub record SodPolicy : Type 0 where
  pub id : ℕ
  pub name : Text
  pub status : Switch

pub record SodPolicyEntity : Type 0 where
  pub sod_policy_id : ℕ
  pub conflict_side : Side
  pub entity_type : ResourceType
  pub entity_id : ℕ
  pub app_role : Option ℕ

pub record SodException : Type 0 where
  pub id : ℕ
  pub sod_policy_id : ℕ
  pub user_id : ℕ
  pub expires_at : ℕ
  pub revoked_at : Option ℕ

pub record SodNotification : Type 0 where
  pub id : ℕ
  pub kind : SodNotificationType
  pub sod_policy_id : ℕ
  pub user_id : ℕ
  pub sod_exception_id : Option ℕ
  pub sod_exception_request_id : Option ℕ
  pub read_at : Option ℕ
  pub resolved_at : Option ℕ

-- A blocked attempt to assign, as it was made, and what became of the request.
pub record SodExceptionRequest : Type 0 where
  pub id : ℕ
  pub sod_policy_id : ℕ
  pub user_id : ℕ
  pub requested_by : Option ℕ
  pub resource_type : ResourceType
  pub resource_id : ℕ
  pub app_role : Option ℕ
  pub approver_id : Option ℕ
  pub fallback_approver_id : Option ℕ
  pub fallback_unlock_hours : Option ℕ
  pub assignment_type : AssignmentType
  pub expiration_time : Option ℕ
  pub status : RequestStatus
  pub decided_by : Option ℕ
  pub decided_at : Option ℕ
  pub sod_exception_id : Option ℕ
  pub granted_assignment_id : Option ℕ
  pub created_at : ℕ

-- Which assignments a campaign reviews.
pub data Scope : Type 0 where
  all_access : Scope
  resource_type_scope : ResourceType → Scope
  specific_resource : ResourceType → ℕ → Scope
  multiple_resources : List (ResourceType × ℕ) → Scope
  user_scope : ℕ → Scope
  account_type_scope : AccountType → Scope
  inactive_users : ℕ → Scope
  mover : ℕ → Scope

pub record Campaign : Type 0 where
  pub id : ℕ
  pub scope : Scope
  pub reviewer_id : Option ℕ
  pub fallback_reviewer_id : Option ℕ
  pub fallback_unlock_hours : Option ℕ
  pub workflow_definition_id : Option ℕ
  pub status : CampaignStatus
  pub due_at : ℕ
  pub frequency_days : Option ℕ
  pub on_no_response : NoResponse
  pub parent_campaign_id : Option ℕ
  pub created_by : Option ℕ
  pub created_at : ℕ
  pub completed_at : Option ℕ

pub record ReviewItem : Type 0 where
  pub id : ℕ
  pub campaign_id : ℕ
  pub assignment_id : ℕ
  pub user_id : ℕ
  pub resource_type : ResourceType
  pub resource_id : ℕ
  pub app_role : Option ℕ
  pub decision : ReviewDecision
  pub decided_by : Option ℕ
  pub decided_at : Option ℕ
  pub workflow_instance_id : Option ℕ

pub record Definition : Type 0 where
  pub id : ℕ
  pub name : Text
  pub status : Switch

-- A stage's condition is set when `condition_field` is.
pub record Condition : Type 0 where
  pub field : Field
  pub operator : Operator
  pub value : Text

pub record StageDefinition : Type 0 where
  pub workflow_definition_id : ℕ
  pub stage_number : ℕ
  pub approval_mode : ApprovalMode
  pub approver_user_ids : List ℕ
  pub fallback_approver_ids : List ℕ
  pub escalate_after_hours : Option ℕ
  pub condition : Option Condition

-- `payload`: the value of a field, if it is present.
pub record Payload : Type 0 where
  pub department : Option Text
  pub job_title : Option Text
  pub employment_type : Option Text
  pub account_type : Option Text

pub record Instance : Type 0 where
  pub id : ℕ
  pub workflow_definition_id : ℕ
  pub subject_type : SubjectType
  pub subject_id : Option ℕ
  pub requested_by : ℕ
  pub payload : Payload
  pub status : Progress
  pub current_stage_number : ℕ
  pub completed_at : Option ℕ

pub record StageInstance : Type 0 where
  pub id : ℕ
  pub workflow_instance_id : ℕ
  pub stage_number : ℕ
  pub approval_mode : ApprovalMode
  pub required_approver_ids : List ℕ
  pub fallback_approver_ids : List ℕ
  pub status : Progress
  pub escalates_at : Option ℕ
  pub escalated_at : Option ℕ
  pub completed_at : Option ℕ

pub record Vote : Type 0 where
  pub stage_instance_id : ℕ
  pub decided_by : ℕ
  pub decision : Decision

-- `WorkflowRequest`.
pub record Request : Type 0 where
  pub id : ℕ
  pub workflow_instance_id : ℕ
  pub requested_by : ℕ

pub record AuditLog : Type 0 where
  pub action : AuditAction
  pub target_id : Option ℕ
  pub provider_id : Option ℕ
  pub actor_user_id : Option ℕ
  pub success : Bool
  pub timestamp : ℕ

pub record Notification : Type 0 where
  pub user_id : ℕ
  pub kind : NotificationType

-- The database, one field for each table. Keys of new rows are drawn from `next_id`.
pub record Db : Type 0 where
  pub next_id : ℕ
  pub providers : List Provider
  pub users : List User
  pub accounts : List Account
  pub groups : List Resource
  pub roles : List Resource
  pub applications : List Resource
  pub user_groups : List UserGroup
  pub assignments : List Assignment
  pub mappings : List Mapping
  pub business_roles : List BusinessRole
  pub business_role_items : List Item
  pub business_role_owners : List BusinessRoleOwner
  pub packages : List Package
  pub package_items : List Item
  pub package_owners : List PackageOwner
  pub package_eligibility : List PackageEligibility
  pub package_links : List PackageLink
  pub catalog : List CatalogEntry
  pub birthright_policies : List BirthrightPolicy
  pub sod_settings : Option SodSettings
  pub sod_policies : List SodPolicy
  pub sod_entities : List SodPolicyEntity
  pub sod_exceptions : List SodException
  pub sod_exception_requests : List SodExceptionRequest
  pub sod_notifications : List SodNotification
  pub campaigns : List Campaign
  pub review_items : List ReviewItem
  pub definitions : List Definition
  pub stage_definitions : List StageDefinition
  pub instances : List Instance
  pub stage_instances : List StageInstance
  pub votes : List Vote
  pub requests : List Request
  pub audit : List AuditLog
  pub notifications : List Notification
