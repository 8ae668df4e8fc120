-- ===== src/Samples/Bundles.antt =====
-- The theorems about packages (backend/app/services/packages.py) at the sample data: a package of two
-- items, which the administrator owns, and one of one item, which the employee may ask for.
use access_piliot.Prelude.{
  ℕ, ◌≡◌, ◌≤◌, ◌&&◌, ◌==◌, refl, true, none, some, List, [], ◌∷◌, length, any, get_row, arith,
}
use access_piliot.Store.{
  Session, Package, Item, user_principal, group, permanent, confirmed, enabled, ok, ◌>>=◌, for_each,
  raise_if, fresh_id, try_else, modify, record_audit, commit, create_notification,
}
use access_piliot.Target.{internal_user_id, resolve_target, get_assignment}
use access_piliot.Assignments.Create.{
  create_assignment, sod_gate, initial_status, insert_assignment, known_user, check_app_role,
  find_workflow, announce, route,
}
use access_piliot.Workflows.Voting.{is_enabled}
use access_piliot.Packages.Items.{package_items_of, package_response, get_package}
use access_piliot.Packages.Editing.{owner_remove_item}
use access_piliot.Packages.Assigning.{
  PackageAssign, MemberResult, created_item, is_eligible_for, request_package,
  assign_package_to_user,
}
use access_piliot.Packages.Batches.{
  BatchRow, batch_ids, row_ids, group_batch_rows, group_batch_rows-batch_ids,
}
use access_piliot.Packages.Owners.{owner_remove_item-HasItem}
use access_piliot.Packages.Requests.{request_package-ok}
use access_piliot.Samples.{session_with, no_handlers}

abbrev bundle : ℕ → Package
bundle key = record {
  id = key;
  name = b'b' ∷ [];
  status = enabled;
  default_approver_id = none;
  default_fallback_approver_id = none;
  fallback_unlock_hours = none;
  workflow_definition_id = none;
}

abbrev team_item : ℕ → ℕ → Item
team_item key owner = record {
  id = key;
  owner_id = owner;
  resource_type = group;
  resource_id = 5;
  app_role = none;
}

abbrev bundle_session : Session
bundle_session =
    let s = session_with confirmed [] in
    record s {
      db = record s.db {
        packages = bundle 60 ∷ bundle 80 ∷ [];
        package_items = team_item 61 60 ∷ team_item 62 60 ∷ team_item 63 70 ∷ team_item 64 80 ∷ [];
        package_owners = record { package_id = 60; user_id = 1 } ∷ [];
        package_eligibility = record { package_id = 80; principal = user_principal 2 } ∷ [];
      };
    }

-- One of the two items is taken out.
owner_remove_item-HasItem_example :
    1 ≤ length (package_items_of 60 (owner_remove_item 60 61 101 bundle_session).1.db)
owner_remove_item-HasItem_example =
    owner_remove_item-HasItem 60 61 101 bundle_session refl (omega arith)

abbrev lasting : PackageAssign
lasting = record {
  assignment_type = permanent;
  start_time = none;
  expiration_time = none;
  approver_id = none;
  workflow_definition_id = none;
}

abbrev one_created : MemberResult
one_created = record {
  user_id = 2;
  package_assignment_id = 100;
  results = record { package_item_id = 64; outcome = created_item 101 } ∷ [];
}

requested : (request_package no_handlers 80 lasting 102 bundle_session).0 ≡ ok one_created
unfolding request_package ◌>>=◌ for_each package_response resolve_target get_row raise_if
    get_package fresh_id try_else create_assignment sod_gate initial_status insert_assignment modify
    record_audit commit known_user check_app_role find_workflow announce route get_assignment
    create_notification assign_package_to_user
requested = refl

request_package-ok_example :
    (user : ℕ) × (internal_user_id 102 bundle_session.db ≡ some user)
    × (is_eligible_for user 80 bundle_session.db ≡ true)
    × (any (λ p. (p.id == 80) && is_enabled p.status) bundle_session.db.packages ≡ true)
request_package-ok_example =
    request_package-ok no_handlers 80 lasting 102 bundle_session one_created requested

abbrev row : ℕ → ℕ → BatchRow
row batch assignment = record {
  package_assignment_id = batch;
  package_id = 60;
  user_id = 2;
  assignment_id = assignment;
  package_name = b'b' ∷ [];
}

abbrev three_rows : List BatchRow
three_rows = row 100 101 ∷ row 110 111 ∷ row 100 102 ∷ []

group_batch_rows-batch_ids_example :
    batch_ids 100 (group_batch_rows three_rows) ≡ row_ids 100 three_rows
unfolding get_row
group_batch_rows-batch_ids_example = group_batch_rows-batch_ids 100 three_rows
