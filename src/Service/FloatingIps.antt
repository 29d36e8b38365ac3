-- ===== src/Service/FloatingIps.antt =====
-- internal/service/floating_ip_service.go.
use casper_cloud.Prelude.{not, Bool, Option, none, some, List, [], ◌∷◌, points_to, if◌then◌else◌}
use casper_cloud.Data.{
  Uuid, Inet, TaskStatus, TaskType, floating_ip_missing_private_ip, floating_ip_not_active,
  not_configured, host_failed, FloatingIp, FloatingIpNatBinding, Task, TaskMessage,
}
use casper_cloud.Exec.{
  Exec, Event, pure, raise, or_raise, db_call, on_error, ignore, request, publish_task, ◌>>=◌, ◌>>◌,
}
use casper_cloud.Repository.Statement.{Done}
use casper_cloud.Repository.Tasks.{create_task, create_task_without_instance}
use casper_cloud.Repository.FloatingIps.{
  allocate_floating_ip_to_project, get_floating_ip_for_project, try_associate_floating_ip,
  take_disassociate_floating_ip, rollback_floating_ip_association,
  list_floating_ips_active_for_reconcile, is_active,
}
use casper_cloud.Service.Steps.{set_task, fail_task}
use casper_cloud.Service.Destroy.{disassociate_ip}

unfoldable pub allocate : (Uuid → Bool) → Uuid → Exec FloatingIp
allocate locked p = db_call (allocate_floating_ip_to_project locked p)

abbrev floating_ip_message : Task → Uuid → Option Uuid → Uuid → FloatingIpNatBinding → TaskMessage
floating_ip_message task p i f b = record {
  task_id = task.id;
  type = task.type;
  project_id = p;
  instance_id = i;
  snapshot_id = none;
  prior_state = none;
  floating_ip_id = some f;
  public_ip = some b.public_ip;
  private_ip = some b.private_ip;
}

-- The binding is rolled back where the task cannot be published, not where it cannot be made.
unfoldable pub request_associate : Uuid → Uuid → Uuid → Exec Task
request_associate p f i = do
  fip ← db_call (try_associate_floating_ip p f i)
  private ← or_raise fip.private_ip floating_ip_missing_private_ip
  task ← db_call (create_task TaskType.floating_ip_associate p i TaskStatus.pending)
  on_error
      (publish_task (
        floating_ip_message task p (some i) f
          (record { public_ip = fip.public_ip; private_ip = private })))
      (λ e. fail_task p task.id e >> ignore (db_call (rollback_floating_ip_association p f)))
  pure task

unfoldable pub request_disassociate : Uuid → Uuid → Exec Task
request_disassociate p f = do
  b ← db_call (take_disassociate_floating_ip p f)
  task ←
      db_call (create_task_without_instance TaskType.floating_ip_disassociate p TaskStatus.pending)
  on_error (publish_task (floating_ip_message task p none f b)) (fail_task p task.id)
  pure task

-- The address of a row that is active for the instance.
abbrev pub check_bound : FloatingIp → Uuid → Exec Inet
check_bound fip i =
    if is_active fip.status
    then (if points_to fip.instance_id i
        then or_raise fip.private_ip floating_ip_missing_private_ip
        else raise floating_ip_not_active)
    else raise floating_ip_not_active

-- `ingress` is whether the worker has one.
unfoldable pub handle_associate_task : Bool → Uuid → Uuid → Uuid → Uuid → Exec Done
handle_associate_task ingress t p i f = if not ingress then raise not_configured else do
  set_task p t TaskStatus.running none
  fip ← on_error (db_call (get_floating_ip_for_project p f)) (fail_task p t)
  private ← on_error (check_bound fip i) (fail_task p t)
  on_error (request (Event.associate_ip fip.public_ip private) host_failed) (fail_task p t)
  set_task p t TaskStatus.succeeded none

unfoldable pub handle_disassociate_task : Bool → Uuid → Uuid → Inet → Inet → Exec Done
unfolding disassociate_ip
handle_disassociate_task ingress t p public_ip private_ip =
    if not ingress then raise not_configured else do
      set_task p t TaskStatus.running none
      on_error (disassociate_ip (record { public_ip = public_ip; private_ip = private_ip }))
          (fail_task p t)
      set_task p t TaskStatus.succeeded none

-- `present` is what `FloatingNATRulesPresent` answers of a pair, `none` where the check fails; that
-- and a failure to add the rules are logged.
unfoldable pub reconcile_each :
    (FloatingIpNatBinding → Option Bool) → List FloatingIpNatBinding → Exec Done
reconcile_each present [] = pure tt
reconcile_each present (b ∷ bs) =
    let rest = reconcile_each present bs in
    elim (present b) [
      | none ↦ rest
      | some found ↦
          if found
          then rest
          else (ignore (request (Event.associate_ip b.public_ip b.private_ip) host_failed) >> rest)
    ]

unfoldable pub reconcile_active_floating_ingress :
    Bool → (FloatingIpNatBinding → Option Bool) → Exec Done
unfolding reconcile_each
reconcile_active_floating_ingress ingress present =
    if not ingress
    then pure tt
    else do rows ← db_call list_floating_ips_active_for_reconcile; reconcile_each present rows
