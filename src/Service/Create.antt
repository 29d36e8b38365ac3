-- ===== src/Service/Create.antt =====
-- `HandleCreateTask` in internal/service/instance_service.go.
use casper_cloud.Prelude.{
  ℕ, Option, none, some, [], ◌∷◌, Text, codes, is_empty, trim_space, cut_prefix, ◌==◌, List,
  if◌then◌else◌,
}
use casper_cloud.Data.{
  Uuid, InstanceState, TaskStatus, bad_image_source, hypervisor_failed, Instance,
}
use casper_cloud.Exec.{Exec, Event, VmConfig, or_raise, db_call, on_error, request, ◌>>=◌, ◌>>◌}
use casper_cloud.Repository.Statement.{Done}
use casper_cloud.Repository.Images.{get_image}
use casper_cloud.Repository.Instances.{get_instance}
use casper_cloud.Service.Steps.{set_task, set_state, fail_task, fail_with_state}

abbrev add_to_line : ℕ → List Text → List Text
add_to_line c [] = (c ∷ []) ∷ []
add_to_line c (l ∷ ls) = (c ∷ l) ∷ ls

-- `strings.Split(s, "\n")`
unfoldable pub lines : Text → List Text
lines [] = [] ∷ []
lines (c ∷ s) = if c == 10 then [] ∷ lines s else add_to_line c (lines s)

abbrev pub hostname_key : Text
hostname_key = codes "hostname:"

-- The first line that begins with the key.
unfoldable pub hostname_of_lines : List Text → Text
unfolding cut_prefix trim_space
hostname_of_lines [] = []
hostname_of_lines (l ∷ ls) =
    let rest = hostname_of_lines ls in
    elim (cut_prefix hostname_key (trim_space l)) [ none ↦ rest | some h ↦ trim_space h ]

unfoldable pub hostname_from_user_data : Text → Text
unfolding lines hostname_of_lines
hostname_from_user_data s = hostname_of_lines (lines s)

-- The defaults of the service.
pub record Defaults : Type 0 where
  pub ram : ℕ
  pub vcpu : ℕ
  pub bridge : Text

abbrev text_or_empty : Option Text → Text
text_or_empty none = []
text_or_empty (some s) = s

unfoldable pub vm_config : Defaults → Instance → Text → VmConfig
unfolding hostname_from_user_data
vm_config s inst base = record {
  instance_id = inst.id;
  instance_name = inst.name;
  hostname = hostname_from_user_data inst.cloud_init_data;
  base_image_path = base;
  user_data = inst.cloud_init_data;
  network_config_yaml = inst.network_config_yaml;
  mac_address = text_or_empty inst.mac_address;
  bridge_name = if is_empty inst.bridge_name then s.bridge else inst.bridge_name;
  memory_mb = s.ram;
  vcpus = s.vcpu;
}

-- `resolve` is `libvirt.ImagePathFromSource` on the host's files: the path of the base image.
unfoldable pub handle_create_task : Defaults → (Text → Option Text) → Uuid → Uuid → Uuid → Exec Done
unfolding vm_config
handle_create_task s resolve t p i = do
  set_task p t TaskStatus.running none
  inst ← on_error (db_call (get_instance p i)) (fail_task p t)
  img ← on_error (db_call (get_image p inst.image_id)) (fail_with_state p t i InstanceState.error)
  base ←
      on_error (or_raise (resolve img.source_url) bad_image_source)
        (fail_with_state p t i InstanceState.error)
  on_error (request (Event.create_vm (vm_config s inst base)) hypervisor_failed)
      (fail_with_state p t i InstanceState.error)
  on_error (set_state p i InstanceState.running) (fail_task p t)
  set_task p t TaskStatus.succeeded none
