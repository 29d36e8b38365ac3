-- ===== src/Tests/Fixtures.antt =====
-- A small database: project 1 has a running instance with a floating IP, a volume and a task, project
-- 2 a stopped instance.
use casper_cloud.Prelude.{true, none, some, [], ◌∷◌, codes, ◌==◌, ◌||◌, if◌then◌else◌}
use casper_cloud.Data.{
  Uuid, InstanceState, TaskStatus, TaskType, SnapshotStatus, VolumeStatus, FloatingIpStatus,
  Project, Instance, Task, Snapshot, Volume, FloatingIp, Db,
}
use casper_cloud.Exec.{World}

abbrev pub web : Instance
web = record {
  id = 10;
  project_id = 1;
  image_id = 5;
  name = codes "web";
  state = InstanceState.running;
  cloud_init_data = codes "hostname: web";
  network_id = none;
  mac_address = none;
  bridge_name = codes "virbr0";
  ipv4_address = some 77;
  network_config_yaml = [];
  created_at = 0;
  updated_at = 0;
}

abbrev pub idle : Instance
idle = record web { id = 20; project_id = 2; state = InstanceState.stopped; ipv4_address = some 78 }

abbrev pub start_web : Task
start_web = record {
  id = 30;
  type = TaskType.instance_start;
  project_id = 1;
  instance_id = some 10;
  status = TaskStatus.pending;
  error = none;
  created_at = 0;
  updated_at = 0;
}

abbrev pub data_volume : Volume
data_volume = record {
  id = 40;
  project_id = 1;
  name = codes "data";
  size_gb = 10;
  status = VolumeStatus.available;
  instance_id = none;
  target_dev = none;
  created_at = 0;
  updated_at = 0;
}

abbrev pub address : FloatingIp
address = record {
  id = 50;
  project_id = some 1;
  public_ip = 900;
  instance_id = none;
  private_ip = none;
  status = FloatingIpStatus.allocated;
  created_at = 0;
  updated_at = 0;
}

abbrev pub snap : Snapshot
snap = record {
  id = 60;
  project_id = 1;
  instance_id = 10;
  name = codes "before";
  status = SnapshotStatus.available;
  domain_was_running = true;
  created_at = 0;
}

abbrev pub project : Uuid → Project
project p = record { id = p; name = codes "p"; owner_id = 1; created_at = 0 }

abbrev pub small : Db
small = record {
  users = [];
  projects = project 1 ∷ project 2 ∷ [];
  memberships = [];
  networks = [];
  ip_slots = [];
  ip_allocations = [];
  images = [];
  instances = web ∷ idle ∷ [];
  tasks = start_web ∷ [];
  snapshots = snap ∷ [];
  volumes = data_volume ∷ [];
  floating_ips = address ∷ [];
  next_id = 100;
  now = 5000;
}

abbrev pub calm : World
calm = record { db = small; faults = []; queue = []; log = [] }

-- Instances 10 and 11 and network 3 are of project 1, network 101 of project 100, and every other of
-- project 2.
abbrev pub owner : Uuid → Uuid
owner i = if i == 10 || i == 11 || i == 3 then 1 else if i == 101 then 100 else 2
