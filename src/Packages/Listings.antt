-- ===== src/Packages/Listings.antt =====
-- The lists of batches that people see (`list_assignment_batches`, `list_my_assignment_batches`,
-- `list_my_package_batches` of backend/app/services/packages.py). The rows stand in the order in which
-- they were added.
use access_piliot.Prelude.{
  ℕ, Bool, false, ◌||◌, Option, none, some, List, [], ◌∷◌, ◌++◌, ◌==◌, same_id, select,
}
use access_piliot.Store.{Db, Package, PackageLink, Assignment, M, gets}
use access_piliot.Target.{internal_user_id, assignment_by}
use access_piliot.Packages.Items.{package_by}
use access_piliot.Packages.Batches.{BatchRow, Batch, group_batch_rows}

-- The join with the package.
abbrev joined_row : PackageLink → Option Package → List BatchRow
joined_row l none = []
joined_row l (some p) =
    record {
      package_assignment_id = l.package_assignment_id;
      package_id = l.package_id;
      user_id = l.user_id;
      assignment_id = l.assignment_id;
      package_name = p.name;
    }
    ∷ []

abbrev joined_rows : Db → List PackageLink → List BatchRow
joined_rows db [] = []
joined_rows db (l ∷ ls) = joined_row l (package_by l.package_id db) ++ joined_rows db ls

unfoldable pub list_assignment_batches : M (List Batch)
list_assignment_batches = gets (λ s. group_batch_rows (joined_rows s.db s.db.package_links))

-- The actor is the approver of the assignment, or its fallback approver.
abbrev is_approver : ℕ → Option Assignment → Bool
is_approver actor none = false
is_approver actor (some a) =
    same_id a.approved_by (some actor) || same_id a.fallback_approver_id (some actor)

abbrev mine_to_decide : Db → Option ℕ → List PackageLink
mine_to_decide db none = []
mine_to_decide db (some actor) =
    select (λ l. is_approver actor (assignment_by l.assignment_id db)) db.package_links

unfoldable pub list_my_assignment_batches : (subject : ℕ) → M (List Batch)
list_my_assignment_batches subject =
    gets (λ s.
      group_batch_rows (joined_rows s.db (mine_to_decide s.db (internal_user_id subject s.db))))

abbrev given_to_me : Db → Option ℕ → List PackageLink
given_to_me db none = []
given_to_me db (some actor) = select (λ l. l.user_id == actor) db.package_links

unfoldable pub list_my_package_batches : (subject : ℕ) → M (List Batch)
list_my_package_batches subject =
    gets
      (λ s. group_batch_rows (joined_rows s.db (given_to_me s.db (internal_user_id subject s.db))))
