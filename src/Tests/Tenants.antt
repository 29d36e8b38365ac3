-- ===== src/Tests/Tenants.antt =====
-- Isolation at a history of project 1.
use casper_cloud.Prelude.{refl, none, false, List, [], ◌∷◌, codes}
use casper_cloud.Data.{Uuid}
use casper_cloud.Service.Async.{CreateInstanceInput}
use casper_cloud.Service.Calls.{Call, perform}
use casper_cloud.Service.Isolation.{WellFormed, perform-WellFormed}
use casper_cloud.Tests.Fixtures.{small, calm, owner}
use casper_cloud.Tests.Server.{net}

pub small-WellFormed : WellFormed owner small
small-WellFormed = record {
  instances = (refl, (refl, tt));
  tasks = (refl, tt);
  snapshots = (refl, tt);
  volumes = ((refl, refl, tt), tt);
  floating_ips = ((refl, refl, refl, tt), tt);
  networks = tt;
  ip_slots = tt;
  ip_allocations = tt;
  distinct = (tt, tt);
}

abbrev new_machine : CreateInstanceInput
new_machine = record {
  name = codes "new";
  image_id = 5;
  cloud = record {
    hostname = codes "new";
    username = codes "ubuntu";
    ssh_public_key = codes "k";
    packages = [];
    run_commands = [];
  };
  network_id = none;
}

perform-WellFormed_example : WellFormed owner (perform 1 (Call.associate 50 10) calm).1.db
perform-WellFormed_example =
    perform-WellFormed owner 1 (Call.associate 50 10) calm tt small-WellFormed

abbrev history : List (Uuid × Call)
history =
    (1, Call.stop_task 30 10)
    ∷ (1, Call.request_action 20 (codes "start"))
    ∷ (1, Call.create_instance net (λ r. false) 11 (codes "52:54:00:00:00:01") new_machine)
    ∷ (1, Call.allocate_floating_ip (λ i. false))
    ∷ []
