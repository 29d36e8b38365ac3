-- ===== src/Tests/Queue.antt =====
-- The worker at concrete messages.
use casper_cloud.Prelude.{
  pos, negsuc, sym, ap, ◌∙◌, some-injective, ◌≢◌, ◌≡◌, refl, true, false, none, some, [], ◌∷◌,
  length, codes, arith, inl, ◌*◌, ◌≤◌,
}
use casper_cloud.Data.{TaskType, TaskMessage, bad_message}
use casper_cloud.Exec.{◌>>=◌, raise, pure}
use casper_cloud.Service.Isolation.{WellFormed, SameRows}
use casper_cloud.Worker.Messages.{WireMessage, wire_of}
use casper_cloud.Worker.Dispatch.{Services, handle_message_body, handle_message}
use casper_cloud.Worker.Broker.{Delivery, number, other, to_int32, retry_count_from_headers}
use casper_cloud.Worker.Loop.{System, rounds}
use casper_cloud.Worker.Dispatched.{meant, handle_message_body-meant}
use casper_cloud.Worker.Isolation.{
  project_of_message, project_of_body, handle_message_body_isolated,
}
use casper_cloud.Worker.Retries.{total_attempts, rounds_drain}
use casper_cloud.Worker.Conserved.{IsHeld, AlwaysFails, rounds_conserve}
use casper_cloud.Tests.Fixtures.{small, calm, owner}
use casper_cloud.Tests.Codec.{codec, codec-CodecLaws}
use casper_cloud.Tests.Tenants.{small-WellFormed}

abbrev services : Services
services = record {
  wiring = record { volumes = true; floating_ingress = true };
  defaults = record { ram = 512; vcpu = 1; bridge = codes "virbr0" };
  resolve = λ s. some s;
  floating_ips = true;
  ingress = true;
}

abbrev stop_web : TaskMessage
stop_web = record {
  task_id = 30;
  type = TaskType.instance_stop;
  project_id = 1;
  instance_id = some 10;
  snapshot_id = none;
  prior_state = none;
  floating_ip_id = none;
  public_ip = none;
  private_ip = none;
}

-- A message without a task, which no handler accepts.
abbrev nameless : WireMessage
nameless = record (wire_of codec stop_web) { task_id = [] }

abbrev stop_delivery : Delivery
stop_delivery = record { body = codec.encode (wire_of codec stop_web); retry = none; reason = none }

abbrev nameless_delivery : Delivery
nameless_delivery = record {
  body = codec.encode nameless;
  retry = some (number (pos 1));
  reason = none;
}

abbrev waiting : System
waiting = record {
  world = calm;
  broker = record {
    tasks = nameless_delivery ∷ stop_delivery ∷ [];
    dead = [];
    unacked = [];
    faults = [];
  };
}

-- The first publishing fails, and so does the second answer.
abbrev failing : System
failing = record waiting { broker = record waiting.broker { faults = true ∷ false ∷ true ∷ [] } }

int32_wraps : to_int32 (pos 4294967295) ≡ negsuc 0
unfolding to_int32
int32_wraps = refl

no_header : retry_count_from_headers (some other) ≡ pos 0
unfolding retry_count_from_headers
no_header = refl

handle_message_body-meant_example :
    handle_message_body codec services (codec.encode (wire_of codec stop_web)) calm
    ≡ meant services stop_web calm
handle_message_body-meant_example =
    handle_message_body-meant codec codec-CodecLaws services stop_web calm tt tt

not_of_two : project_of_body codec stop_delivery.body ≢ some 2
unfolding wire_of
not_of_two e =
    let sent = codec-CodecLaws.decode-encode (wire_of codec stop_web) in
    let same = some-injective 1 2 (sym (ap (project_of_message codec) sent) ∙ e) in
    omega (arith, same)

handle_message_body_isolated_example :
    WellFormed owner (handle_message_body codec services stop_delivery.body calm).1.db
    × SameRows 2 small (handle_message_body codec services stop_delivery.body calm).1.db
handle_message_body_isolated_example =
    handle_message_body_isolated owner 2 codec services stop_delivery.body calm small-WellFormed
      not_of_two

rounds_drain_example :
    ((rounds codec
        (handle_message_body codec services)
        (total_attempts waiting.broker.tasks)
        waiting).broker.tasks
      ≡ [])
    × (total_attempts waiting.broker.tasks ≤ 3 * length waiting.broker.tasks)
unfolding retry_count_from_headers
rounds_drain_example =
    rounds_drain codec (handle_message_body codec services) waiting
      (record { no_faults = refl; counted = (tt, (tt, tt)) })

nameless_fails : AlwaysFails codec nameless (handle_message_body codec services)
unfolding handle_message_body handle_message ◌>>=◌ raise pure
nameless_fails t w e = rw e (bad_message, refl)

rounds_conserve_example :
    IsHeld codec nameless (rounds codec (handle_message_body codec services) 4 failing).broker
rounds_conserve_example =
    rounds_conserve codec codec-CodecLaws nameless (handle_message_body codec services) 4 failing
      nameless_fails (inl (inl (codec-CodecLaws.decode-encode nameless)))
