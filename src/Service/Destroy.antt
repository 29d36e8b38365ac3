-- ===== src/Service/Destroy.antt =====
-- `HandleDestroyTask` in internal/service/instance_service.go.
use casper_cloud.Prelude.{Bool, none, List, [], ◌∷◌, if◌then◌else◌}
use casper_cloud.Data.{
  Uuid, InstanceState, eq_state, TaskStatus, hypervisor_failed, host_failed, FloatingIpNatBinding,
}
use casper_cloud.Exec.{Exec, Event, pure, db_call, on_error, ignore, request, ◌>>=◌, ◌>>◌}
use casper_cloud.Repository.Statement.{Done}
use casper_cloud.Repository.Instances.{get_instance}
use casper_cloud.Repository.FloatingIps.{
  list_active_floating_ip_nat_bindings_by_instance, clear_floating_ip_bindings_for_instance,
}
use casper_cloud.Repository.Destroy.{finalize_instance_destroy}
use casper_cloud.Service.Steps.{set_task, set_state, fail_task, fail_with_state}
use casper_cloud.Service.Volumes.{detach_all_from_instance_for_destroy}

-- The optional parts of the service: `s.volumes != nil` and `s.floatingIngress != nil`.
pub record Wiring : Type 0 where
  pub volumes : Bool
  pub floating_ingress : Bool

-- `Ingress.DisassociateIP` on two addresses: the results of its two iptables runs are dropped.
unfoldable pub disassociate_ip : FloatingIpNatBinding → Exec Done
disassociate_ip b = ignore (request (Event.disassociate_ip b.public_ip b.private_ip) host_failed)

unfoldable pub disassociate_each : Uuid → Uuid → Uuid → List FloatingIpNatBinding → Exec Done
unfolding disassociate_ip
disassociate_each t p i [] = pure tt
disassociate_each t p i (b ∷ bs) = do
  on_error (disassociate_ip b) (fail_with_state p t i InstanceState.error)
  disassociate_each t p i bs

unfoldable pub tear_down_nat : Uuid → Uuid → Uuid → Exec Done
unfolding disassociate_each
tear_down_nat t p i = do
  bindings ←
      on_error (db_call (list_active_floating_ip_nat_bindings_by_instance p i))
        (fail_with_state p t i InstanceState.error)
  disassociate_each t p i bindings

unfoldable pub handle_destroy_task : Wiring → Uuid → Uuid → Uuid → Exec Done
unfolding tear_down_nat
handle_destroy_task s t p i = do
  set_task p t TaskStatus.running none
  inst ← on_error (db_call (get_instance p i)) (fail_task p t)
  on_error (set_state p i InstanceState.deleting) (fail_task p t)
  (if s.volumes
      then on_error
          (detach_all_from_instance_for_destroy p i inst.name
            (eq_state InstanceState.running inst.state))
          (fail_with_state p t i InstanceState.error)
      else pure tt)
  (if s.floating_ingress then tear_down_nat t p i else pure tt)
  on_error (db_call (clear_floating_ip_bindings_for_instance p i))
      (fail_with_state p t i InstanceState.error)
  on_error (request (Event.delete_vm inst.name inst.id) hypervisor_failed)
      (fail_with_state p t i InstanceState.error)
  db_call (finalize_instance_destroy p t i)
