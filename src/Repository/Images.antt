-- ===== src/Repository/Images.antt =====
-- The images of a project: internal/repository/repository.go.
use casper_cloud.Prelude.{
  ◌==◌, ◌&&◌, Bool, List, ◌∷◌, Text, suc, select, select_row, update, delete, exists, order_by_desc,
  if◌then◌else◌,
}
use casper_cloud.Data.{Uuid, not_found, constraint_violation, Image, Instance, Project}
use casper_cloud.Exec.{ok, err}
use casper_cloud.Repository.Statement.{Statement, Done, one_row}

-- `WHERE project_id = $1 AND id = $2`
abbrev pub is_image : Uuid → Uuid → Image → Bool
is_image p i r = r.project_id == p && r.id == i

unfoldable pub create_image : Uuid → Text → Text → Text → Statement Image
create_image p name source_url description d =
    if exists (λ (r : Project). r.id == p) d.projects
    then ok (row, record d { images = row ∷ d.images; next_id = suc d.next_id })
    else err constraint_violation
  where
    row : Image
    row = record {
      id = d.next_id;
      project_id = p;
      name = name;
      source_url = source_url;
      description = description;
      created_at = d.now;
    }

unfoldable pub get_image : Uuid → Uuid → Statement Image
get_image p i d = one_row (select_row (is_image p i) d.images) not_found d

unfoldable pub list_images : Uuid → Statement (List Image)
list_images p d =
    ok (order_by_desc (λ r. r.created_at) (select (λ r. r.project_id == p) d.images), d)

unfoldable pub update_image : Uuid → Uuid → Text → Text → Text → Statement Image
update_image p i name source_url description d =
    one_row (select_row (is_image p i) images) not_found (record d { images = images })
  where
    images : List Image
    images =
        update (is_image p i)
          (λ r. record r { name = name; source_url = source_url; description = description })
          d.images

-- `instances.image_id` is ON DELETE RESTRICT.
unfoldable pub delete_image : Uuid → Uuid → Statement Done
delete_image p i d =
    if exists (is_image p i) d.images
    then (if exists (λ (r : Instance). r.image_id == i) d.instances
        then err constraint_violation
        else ok (tt, record d { images = delete (is_image p i) d.images }))
    else err not_found
