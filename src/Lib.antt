-- ===== src/Lib.antt =====
-- Verification library of AccessPilot's access governance, the Python services under backend/app.
--
-- The program grants people access to groups, roles and applications of directories. A grant is a row
-- of `access_assignments`. It is requested and approved by a person or by a workflow of several
-- stages, activated by its owner for some hours, deactivated, revoked, or expired by a worker. Before
-- it becomes real, Separation of Duties is checked. Real access is changed by a call of a
-- directory's connector. A group may deliver further grants by its mappings.
--
-- Store: the tables of backend/app/models/models.py as records, with the columns that the modelled
--   code uses; a session as two databases (what it sees, what is committed), commit and rollback;
--   an action returns, raises an `AccessPilotError`, or crashes with another exception. Rules and
--   Returns hold the proof rules. The connectors of backend/app/providers talk to services outside
--   the repository: their replies are the parameter `World` of a session, and may depend on all
--   earlier calls. `record_audit` and `create_notification` are the writes of
--   backend/app/services/audit.py and backend/app/services/notifications.py.
-- Hierarchy: backend/app/services/user_hierarchy.py.
-- Target, Accounts, Grants: the lookups and directory calls of backend/app/services/assignments.py and
--   backend/app/services/accounts.py.
-- Sod: the preventive check of backend/app/services/sod.py (`check_sod_conflicts`), with a
--   specification of it by membership (Sod/Specification). The two share the entitlements of an entity
--   (`expand`) and the reading of what the directory replies.
-- SodPolicies: the rest of backend/app/services/sod.py: policies, exceptions, the requests for them,
--   the scan for violations, and the log of notifications. What the validators of
--   backend/app/schemas/sod.py refuse is not an argument, but what is stored unchecked is.
-- Workflows: backend/app/services/workflows.py, with the editing of definitions. What an outcome does to user attributes and to the
--   reviews belongs to other services and is the parameter `Handlers`.
-- Assignments: create, approve, reject, activate, deactivate and revoke of
--   backend/app/services/assignments.py, and backend/app/services/group_role_mapping.py, which the
--   cascades of groups call.
-- Workers: the sweeps of backend/app/workers/activation.py and backend/app/workers/expiration.py, and
--   the test of backend/app/workers/scheduler.py. Where the code catches any exception of a write, in
--   the expiry of a row and in the escalation sweep of Workflows, which states the database refuses to
--   commit is the parameter `refuses`; elsewhere a commit is taken to succeed, but for the broken
--   foreign keys that are written out as crashes.
-- Lifecycle: the life of an assignment across its decisions, activation, revocation, deactivation and
--   the workers, but not its creation.
-- Birthright: the rules, the evaluation, the reconciliation and the editing of policies of
--   backend/app/services/birthright.py. A rule that was validated is a list of conditions whose
--   operators and values fit (`valid_conditions`), so that no other kind is stored.
-- Packages: backend/app/services/packages.py, with the guard for items of high risk of
--   backend/app/services/entitlement_catalog.py.
-- BusinessRoles: backend/app/services/business_roles.py. A role is assigned item by item, like a
--   package, by `create_assignment`.
-- AccessReviews: backend/app/services/access_reviews.py, but for its fixed calendars, and the outcome of
--   an item's workflow of backend/app/services/workflows.py (`with_reviews` makes a handler of it).
--   The subjects that the application acts under by itself are one parameter, `system`.
-- Samples: data at which the theorems are applied.
--
-- Keys, directory identifiers and names of app roles are numbers; a time is a number of seconds, one
-- value of `now` for each operation; a duration is in seconds too, so that fractions of an hour are
-- kept. Text is a list of ASCII codes: the lower case and the white space of the conditions
-- (`lower`, `is_space`, `strip`) are those of ASCII, where Python's are those of Unicode. A query without an order returns rows in the order of the table.
--
-- Fuel: the walk up the managers has one round more than there are users, which is enough; the
-- cascades of groups recurse through business roles, so they take any fuel, and the theorems about
-- their single step (`revoke_one`, `activate_one`, `deactivate_one`) need none. A review that starts
-- another one by a workflow that ends at once takes fuel too (`with_reviews`).
--
-- Not modelled: the HTTP interface, sign-in, the connectors themselves, directory synchronisation,
-- joiners, movers and leavers, dynamic groups, the calendars of access reviews, non-human identities,
-- reports and read-only lists; texts of messages and metadata of the audit log; concurrent requests
-- inside one operation.
pub mod Prelude
pub mod Store
pub mod Hierarchy
pub mod Target
pub mod Accounts
pub mod Grants
pub mod Sod
pub mod Workflows
pub mod Assignments
pub mod Birthright
pub mod Packages
pub mod BusinessRoles
pub mod SodPolicies
pub mod AccessReviews
pub mod Workers
pub mod Lifecycle
pub mod Samples
