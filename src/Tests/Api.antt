-- ===== src/Tests/Api.antt =====
-- Requests, tokens, addresses and host names at concrete inputs.
use casper_cloud.Prelude.{
  ◌∙◌, ◌≡◌, ◌≢◌, ◌==◌, ◌&&◌, not, refl, ap, sym, subst, some-injective, ltb, ◌-◌, ◌^◌, ◌+◌, arith,
  Bool, true, false, Option, none, some, List, [], ◌∷◌, ◌++◌, Text, codes, exists, is_some,
}
use casper_cloud.Data.{Uuid, Inet, User, InstanceState, Db}
use casper_cloud.Exec.{World, Result, ok, err}
use casper_cloud.CloudInit.{CloudData, user_data_of}
use casper_cloud.Repository.Hosts.{usable_ipv4_hosts, masked}
use casper_cloud.Repository.Pools.{usable_ipv4_hosts_exact}
use casper_cloud.Repository.Claims.{create_instance_with_ipam_refused}
use casper_cloud.Repository.Create.{CreateInstanceParams, create_instance_with_ipam}
use casper_cloud.Service.Accounts.{AuthResponse, LoginInput, login}
use casper_cloud.Service.Create.{hostname_from_user_data}
use casper_cloud.Service.Isolation.{WellFormed, SameRows}
use casper_cloud.Service.Outcomes.Hostname.{hostname_from_user_data-user_data_of}
use casper_cloud.Api.Responses.{Response, Message}
use casper_cloud.Api.Router.{ProjectRoute, Route, serve}
use casper_cloud.Api.Tenants.{admitted, serve_isolated}
use casper_cloud.Api.Tokens.{IsSession, login-auth_middleware}
use casper_cloud.Tests.Fixtures.{small, calm, owner, web}
use casper_cloud.Tests.Tenants.{small-WellFormed}
use casper_cloud.Tests.Server.{auth, auth-AuthLaws, sign, uuid_text, net, unread, server}

abbrev alice : User
alice = record { id = 7; email = codes "a@b"; password_hash = codes "secret"; created_at = 0 }

abbrev with_member : Db
with_member = record small {
  users = alice ∷ [];
  memberships = record { project_id = 1; user_id = 7 } ∷ [];
  networks =
      record {
        id = 3;
        project_id = 1;
        name = codes "default";
        cidr = codes "192.168.122.0/24";
        gateway = codes "192.168.122.1";
        bridge_name = codes "virbr0";
        is_default = true;
      }
      ∷ [];
  images =
      record {
        id = 5;
        project_id = 2;
        name = codes "base";
        source_url = [];
        description = [];
        created_at = 0;
      }
      ∷ [];
  ip_slots =
      record { network_id = 3; ip_address = 9; instance_id = none }
      ∷ record { network_id = 3; ip_address = 8; instance_id = none }
      ∷ record { network_id = 3; ip_address = 7; instance_id = some 10 }
      ∷ [];
}

abbrev at_work : World
at_work = record calm { db = with_member }

abbrev header : Text
header =
    codes "Bearer "
    ++ sign (record {
      user_id = uuid_text 7;
      email = codes "a@b";
      active_project_id = uuid_text 1;
      issued_at = 50;
      expires_at = 200;
    })

abbrev delete_web : Route
delete_web = Route.in_project (uuid_text 1) (ProjectRoute.delete_instance (uuid_text 10))

admitted_one : admitted server header delete_web with_member ≡ some 1
unfolding casper_cloud.Api.Access.auth_middleware casper_cloud.Tests.Server.verify
    casper_cloud.Api.Access.project_token_matches_url exists
admitted_one = refl

with_member-WellFormed : WellFormed owner with_member
with_member-WellFormed = record {
  instances = small-WellFormed.instances;
  tasks = small-WellFormed.tasks;
  snapshots = small-WellFormed.snapshots;
  volumes = small-WellFormed.volumes;
  floating_ips = small-WellFormed.floating_ips;
  networks = (refl, tt);
  ip_slots = (tt, (tt, (refl, tt)));
  ip_allocations = tt;
  distinct = small-WellFormed.distinct;
}

-- The token of one project does not open another.
other_project :
    (serve server header (Route.in_project (uuid_text 2) ProjectRoute.list_images) at_work).0
    ≡ Response.error_of 403 (Message.says (codes "token project scope does not match this path"))
unfolding serve casper_cloud.Tests.Server.verify
other_project = refl

one_is_not_two : (◌≡◌ {A = Option Uuid} (some 1) (some 2)) → ⊥
one_is_not_two e = let same = some-injective 1 2 e in omega (arith, same)

serve_isolated_example :
    WellFormed owner (serve server header delete_web at_work).1.db
    × SameRows 2 with_member (serve server header delete_web at_work).1.db
serve_isolated_example =
    serve_isolated owner 2 server header delete_web at_work with_member-WellFormed
      (omega arith, refl) (λ p e. some-injective 1 p (sym admitted_one ∙ e))
      (λ e. one_is_not_two (sym admitted_one ∙ e))

abbrev session : AuthResponse
session = record {
  token = sign (record {
    user_id = uuid_text 7;
    email = codes "a@b";
    active_project_id = uuid_text 1;
    issued_at = 100;
    expires_at = 86500;
  });
  user = alice;
  active_project_id = some 1;
}

abbrev credentials : LoginInput
credentials = record { email = codes "a@b"; password = codes "secret"; project_id = some 1 }

login-auth_middleware_example : IsSession auth 500 at_work session
unfolding login casper_cloud.Exec.◌>>=◌ casper_cloud.Exec.db_call
    casper_cloud.Repository.Accounts.get_user_by_email casper_cloud.Prelude.select_row
    casper_cloud.Prelude.eq_text casper_cloud.Exec.pure
    casper_cloud.Repository.Accounts.user_has_project_access exists
login-auth_middleware_example =
    login-auth_middleware auth auth-AuthLaws 100 500 credentials session at_work at_work refl
      (omega arith)

usable_ipv4_hosts_exact_example :
    (hosts : List Inet) × (usable_ipv4_hosts 3232266753 24 3232266753 ≡ ok hosts)
    × ((x : Inet)
        → exists (λ h. h == x) hosts ≡ (
            ltb (masked 3232266753 24) x
            && ltb x (masked 3232266753 24 + 2 ^ (32 - 24) - 1)
            && not (x == 3232266753)))
usable_ipv4_hosts_exact_example =
    usable_ipv4_hosts_exact 3232266753 24 3232266753 (omega arith) (omega arith) (omega arith)

abbrev claimed : Db
claimed = record with_member {
  networks =
      record {
        id = 3;
        project_id = 1;
        name = codes "default";
        cidr = codes "192.168.122.0/24";
        gateway = codes "192.168.122.1";
        bridge_name = codes "virbr0";
        is_default = true;
      }
      ∷ [];
  images =
      record {
        id = 5;
        project_id = 2;
        name = codes "base";
        source_url = [];
        description = [];
        created_at = 0;
      }
      ∷ [];
  ip_slots =
      record { network_id = 3; ip_address = 9; instance_id = none }
      ∷ record { network_id = 3; ip_address = 8; instance_id = some 20 }
      ∷ record { network_id = 3; ip_address = 7; instance_id = some 10 }
      ∷ [];
}

abbrev new_params : CreateInstanceParams
new_params = record {
  instance_id = 11;
  project_id = 1;
  image_id = 5;
  name = codes "new";
  user_data = [];
  initial_state = InstanceState.creating;
  network_id = 3;
  network_cidr = codes "192.168.122.0/24";
  network_gateway = codes "192.168.122.1/32";
  bridge_name = codes "virbr0";
  mac = codes "52:54:00:00:00:01";
}

create_instance_with_ipam_refused_example :
    ¬ (create_instance_with_ipam net (λ s. false) new_params with_member ≡ ok (web, with_member))
create_instance_with_ipam_refused_example =
    create_instance_with_ipam_refused net (λ s. false) new_params with_member unread web with_member

abbrev cloud : CloudData
cloud = record {
  hostname = codes "web";
  username = codes "ubuntu";
  ssh_public_key = codes "ssh-ed25519 A";
  packages = codes "nginx" ∷ [];
  run_commands = [];
}

hostname_from_user_data-user_data_of_example :
    hostname_from_user_data (user_data_of cloud) ≡ cloud.hostname
unfolding casper_cloud.Prelude.is_space exists
hostname_from_user_data-user_data_of_example =
    hostname_from_user_data-user_data_of cloud 119 98 (codes "eb") (codes "ew") refl refl refl refl
      refl
