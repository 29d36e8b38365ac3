-- ===== src/Service/Async.antt =====
-- `CreateAsync` and `GetInstanceStats` in internal/service/instance_service.go.
use casper_cloud.Prelude.{◌==◌, not, ltb, ◌-◌, Bool, Option, none, some, Text, if◌then◌else◌}
use casper_cloud.Data.{
  Uuid, uuid_nil, Error, no_default_network, Seconds, InstanceState, TaskStatus, TaskType,
  not_found, stats_fetcher_not_configured, stats_not_in_cache, stats_stale, bad_message,
  host_failed, Network, Instance, Task, IpSlot,
}
use casper_cloud.Exec.{
  Result, ok, err, World, Exec, pure, raise, db_call, on_error, ignore, publish_task, ◌>>=◌, ◌>>◌,
}
use casper_cloud.CloudInit.{CloudData, render_user_data}
use casper_cloud.Repository.Images.{get_image}
use casper_cloud.Repository.Instances.{get_instance}
use casper_cloud.Repository.Tasks.{create_task}
use casper_cloud.Repository.Networks.{Net, get_network_for_project, get_default_network_id}
use casper_cloud.Repository.Create.{CreateInstanceParams, create_instance_with_ipam}
use casper_cloud.Service.Steps.{set_state, fail_task}
use casper_cloud.Service.Requests.{instance_message}

-- `CreateInstanceInput`
pub record CreateInstanceInput : Type 0 where
  pub name : Text
  pub image_id : Uuid
  pub cloud : CloudData
  pub network_id : Option Uuid

pub record CreateInstanceResult : Type 0 where
  pub instance_row : Instance
  pub task : Task

abbrev pub lift : {A : Type 0} → Result A → Exec A
lift r w = (r, w)

abbrev pub wrap : Error → Error
wrap Error.not_found = no_default_network
wrap e = e

abbrev pub wrapped : {A : Type 0} → Result A × World → Result A × World
wrapped (ok x, w) = (ok x, w)
wrapped (err e, w) = (err (wrap e), w)

-- `fmt.Errorf("default network: %w", err)`, which is not `ErrNotFound` any more.
abbrev pub wrap_error : {A : Type 0} → Exec A → Exec A
wrap_error m w = wrapped (m w)

abbrev pub default_network : Uuid → Exec Network
default_network p =
    wrap_error (db_call (get_default_network_id p)) >>= λ n. db_call (get_network_for_project p n)

-- The network that is named, or the default one.
unfoldable pub network_of : Uuid → Option Uuid → Exec Network
network_of p none = default_network p
network_of p (some n) =
    if n == uuid_nil then default_network p else db_call (get_network_for_project p n)

abbrev pub params_of :
    Uuid → Text → Uuid → CreateInstanceInput → Text → Network → CreateInstanceParams
params_of i mac p input user_data n = record {
  instance_id = i;
  project_id = p;
  image_id = input.image_id;
  name = input.name;
  user_data = user_data;
  initial_state = InstanceState.creating;
  network_id = n.id;
  network_cidr = n.cidr;
  network_gateway = n.gateway;
  bridge_name = n.bridge_name;
  mac = mac;
}

-- `i` is the id of `uuid.New()`, and `mac` what `macForInstance` makes of it.
unfoldable pub create_async :
    Net → (IpSlot → Bool) → Uuid → Text → Uuid → CreateInstanceInput → Exec CreateInstanceResult
unfolding network_of
create_async net locked i mac p input = do
  db_call (get_image p input.image_id)
  user_data ← lift (render_user_data input.cloud)
  n ← network_of p input.network_id
  inst ← db_call (create_instance_with_ipam net locked (params_of i mac p input user_data n))
  task ← db_call (create_task TaskType.instance_create p inst.id TaskStatus.pending)
  on_error (publish_task (instance_message task p inst.id))
      (λ e. fail_task p task.id e >> ignore (set_state p inst.id InstanceState.error))
  pure (record { instance_row = inst; task = task })

-- `instancemetrics.Payload`: what the request reads, and the measures.
pub record Payload : Type 0 where
  pub project_id : Uuid
  pub instance_id : Uuid
  pub collected_at : Seconds
  pub measures : Text

-- What `FetchInstanceStatsPayload` and the decoding of its bytes give.
pub data Fetched : Type 0 where
  no_payload fetch_failed not_json : Fetched
  payload : Payload → Fetched

-- `maxStatsPayloadAge`, in seconds
abbrev pub max_stats_payload_age : Seconds
max_stats_payload_age = 45

abbrev pub read_stats : Seconds → Uuid → Uuid → Fetched → Exec Payload
read_stats now p i Fetched.no_payload = raise stats_not_in_cache
read_stats now p i Fetched.fetch_failed = raise host_failed
read_stats now p i Fetched.not_json = raise bad_message
read_stats now p i (Fetched.payload x) =
    if not (x.project_id == p)
    then raise not_found
    else if not (x.instance_id == i)
    then raise not_found
    else if ltb max_stats_payload_age (now - x.collected_at)
    then raise stats_stale
    else pure x

-- `fetch` is `none` where the service has no fetcher.
unfoldable pub get_instance_stats : Option (Uuid → Fetched) → Seconds → Uuid → Uuid → Exec Payload
get_instance_stats none now p i = raise stats_fetcher_not_configured
get_instance_stats (some fetch) now p i =
    db_call (get_instance p i) >>= λ inst. read_stats now p i (fetch i)
