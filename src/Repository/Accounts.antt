-- ===== src/Repository/Accounts.antt =====
-- Users, projects and memberships: internal/repository/repository.go.
use casper_cloud.Prelude.{
  ◌==◌, ◌&&◌, eq_text, Bool, List, ◌∷◌, Text, suc, select, select_row, exists, order_by_desc,
  if◌then◌else◌,
}
use casper_cloud.Data.{
  Uuid, not_found, unique_violation, constraint_violation, User, Project, Membership, Db,
}
use casper_cloud.Exec.{ok, err}
use casper_cloud.Repository.Statement.{Statement, one_row}

-- `users.email` is UNIQUE.
unfoldable pub create_user : Text → Text → Statement User
create_user email password_hash d =
    if exists (λ (r : User). eq_text r.email email) d.users
    then err unique_violation
    else ok (row, record d { users = row ∷ d.users; next_id = suc d.next_id })
  where
    row : User
    row = record {
      id = d.next_id;
      email = email;
      password_hash = password_hash;
      created_at = d.now;
    }

unfoldable pub get_user_by_email : Text → Statement User
get_user_by_email email d =
    one_row (select_row (λ (r : User). eq_text r.email email) d.users) not_found d

unfoldable pub get_user_by_id : Uuid → Statement User
get_user_by_id u d = one_row (select_row (λ (r : User). r.id == u) d.users) not_found d

abbrev pub is_membership : Uuid → Uuid → Membership → Bool
is_membership p u r = r.project_id == p && r.user_id == u

unfoldable pub user_has_project_access : Uuid → Uuid → Statement Bool
user_has_project_access u p d = ok (exists (is_membership p u) d.memberships, d)

-- A membership is one row for a project and a user, so the join gives a project once.
unfoldable pub list_projects_for_user : Uuid → Statement (List Project)
list_projects_for_user u d = ok (
  order_by_desc (λ r. r.created_at)
      (select (λ (r : Project). exists (is_membership r.id u) d.memberships) d.projects),
  d,
)

-- The first INSERT of `CreateProject`: `projects.owner_id` refers to a user.
unfoldable pub insert_project : Uuid → Text → Statement Project
insert_project owner name d =
    if exists (λ (r : User). r.id == owner) d.users
    then ok (row, record d { projects = row ∷ d.projects; next_id = suc d.next_id })
    else err constraint_violation
  where
    row : Project
    row = record { id = d.next_id; name = name; owner_id = owner; created_at = d.now }

-- The second: the owner becomes a member.
unfoldable pub insert_membership : Uuid → Uuid → Db → Db
insert_membership p u d =
    if exists (is_membership p u) d.memberships
    then d
    else record d { memberships = record { project_id = p; user_id = u } ∷ d.memberships }
