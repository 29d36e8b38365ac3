-- ===== src/Repository/Volumes.antt =====
-- The volumes: internal/repository/volumes.go.
use casper_cloud.Prelude.{
  ◌==◌, ◌&&◌, ◌||◌, not, ltb, leb, ℕ, Bool, true, false, none, some, List, ◌∷◌, Text, eq_text,
  is_some, points_to, select, select_row, update, delete, exists, count, order_by_desc,
  if◌then◌else◌,
}
use casper_cloud.Data.{
  Uuid, VolumeStatus, not_found, volume_in_use, unique_violation, constraint_violation, Project,
  Instance, Volume, Db,
}
use casper_cloud.Exec.{ok, err}
use casper_cloud.Repository.Statement.{Statement, Done, one_row, affected}

-- `WHERE project_id = $1 AND id = $2`
abbrev pub is_volume : Uuid → Uuid → Volume → Bool
is_volume p v r = r.project_id == p && r.id == v

-- `WHERE project_id = $1 AND instance_id = $2`
abbrev pub is_attached_to : Uuid → Uuid → Volume → Bool
is_attached_to p i r = r.project_id == p && points_to r.instance_id i

abbrev pub is_status_available : VolumeStatus → Bool
is_status_available VolumeStatus.available = true
is_status_available _ = false

-- CHECK (size_gb > 0 AND size_gb <= 4096)
abbrev pub size_fits : ℕ → Bool
size_fits n = ltb 0 n && leb n 4096

abbrev pub new_volume : Uuid → Uuid → Text → ℕ → VolumeStatus → Db → Volume
new_volume p v name size_gb status d = record {
  id = v;
  project_id = p;
  name = name;
  size_gb = size_gb;
  status = status;
  instance_id = none;
  target_dev = none;
  created_at = d.now;
  updated_at = d.now;
}

-- The CHECK is read first, then UNIQUE (project_id, name) and the primary key, then the foreign key.
unfoldable pub create_volume : Uuid → Uuid → Text → ℕ → VolumeStatus → Statement Volume
create_volume p v name size_gb status d =
    if not (size_fits size_gb)
    then err constraint_violation
    else if exists (λ (r : Volume). r.id == v || (r.project_id == p && eq_text r.name name))
        d.volumes
    then err unique_violation
    else if exists (λ (r : Project). r.id == p) d.projects
    then ok (
      new_volume p v name size_gb status d,
      record d { volumes = new_volume p v name size_gb status d ∷ d.volumes },
    )
    else err constraint_violation

unfoldable pub get_volume : Uuid → Uuid → Statement Volume
get_volume p v d = one_row (select_row (is_volume p v) d.volumes) not_found d

unfoldable pub list_volumes : Uuid → Statement (List Volume)
list_volumes p d =
    ok (order_by_desc (λ r. r.created_at) (select (λ r. r.project_id == p) d.volumes), d)

-- The second statement, which tells an attached volume from a missing one, changes nothing; that it
-- may fail itself, and is then read as "missing", is left out.
unfoldable pub delete_volume : Uuid → Uuid → Statement Done
delete_volume p v d =
    if exists (λ r. is_volume p v r && not (is_some r.instance_id)) d.volumes
    then ok (
      tt,
      record d { volumes = delete (λ r. is_volume p v r && not (is_some r.instance_id)) d.volumes },
    )
    else if exists (λ r. is_volume p v r && is_some r.instance_id) d.volumes
    then err volume_in_use
    else err not_found

unfoldable pub count_volumes_attached_to_instance : Uuid → Uuid → Statement ℕ
count_volumes_attached_to_instance p i d = ok (count (is_attached_to p i) d.volumes, d)

unfoldable pub list_volumes_attached_to_instance : Uuid → Uuid → Statement (List Volume)
list_volumes_attached_to_instance p i d = ok (select (is_attached_to p i) d.volumes, d)

-- `WHERE … AND status = 'available' AND instance_id IS NULL`
abbrev pub is_free_volume : Uuid → Uuid → Volume → Bool
is_free_volume p v r =
    is_volume p v r && is_status_available r.status && not (is_some r.instance_id)

-- The foreign key wants the instance.
unfoldable pub attach_volume_record : Uuid → Uuid → Uuid → Text → Statement Done
attach_volume_record p v i target d =
    if exists (is_free_volume p v) d.volumes
    then (if exists (λ (r : Instance). r.id == i) d.instances
        then ok (
          tt,
          record d {
            volumes =
                update (is_free_volume p v)
                  (λ r. record r {
                    instance_id = some i;
                    target_dev = some target;
                    status = VolumeStatus.in_use;
                    updated_at = d.now;
                  })
                  d.volumes;
          },
        )
        else err constraint_violation)
    else err not_found

unfoldable pub detach_volume_record : Uuid → Uuid → Uuid → Statement Done
detach_volume_record p i v d =
    affected (exists (λ r. is_volume p v r && points_to r.instance_id i) d.volumes) not_found
      (record d {
        volumes =
            update (λ r. is_volume p v r && points_to r.instance_id i)
              (λ r. record r {
                instance_id = none;
                target_dev = none;
                status = VolumeStatus.available;
                updated_at = d.now;
              })
              d.volumes;
      })

unfoldable pub set_volume_error : Uuid → Uuid → Statement Done
set_volume_error p v d = ok (
  tt,
  record d {
    volumes =
        update (is_volume p v) (λ r. record r { status = VolumeStatus.error; updated_at = d.now })
          d.volumes;
  },
)
