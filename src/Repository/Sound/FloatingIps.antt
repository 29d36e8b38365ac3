-- ===== src/Repository/Sound/FloatingIps.antt =====
-- The statements on floating IPs keep the tables sound.
use casper_cloud.Prelude.{
  ◌≡◌, refl, ◌≢◌, Bool, true, ◌&&◌, some, arith, update, All-update, select-update, points_to,
  select_row, select_row-All, select_row_sound, Option-cases, inl, inr,
}
use casper_cloud.Data.{Uuid, not_found, Instance, FloatingIp, Db}
use casper_cloud.Exec.{ok}
use casper_cloud.Exec.Keeps.{Kept}
use casper_cloud.Repository.Kept.{Kept-one_row}
use casper_cloud.Repository.FloatingIps.{
  is_floating_ip, is_active, can_bind, is_bindable, bind_to, unbind, clear_binding,
  get_floating_ip_for_project, try_associate_floating_ip, take_disassociate_floating_ip,
  rollback_floating_ip_association, clear_floating_ip_bindings_for_instance,
}
use casper_cloud.Repository.Sound.{Sound, InstanceOk, FloatingIpOk}
use casper_cloud.Repository.Sound.Change.{with_floating_ips, DistinctIds-update}

module _ (own : Uuid → Uuid) (p q : Uuid) (ne : p ≢ q) (d₀ d : Db) (h : Sound own q d₀ d) where
  -- The rows of the project that pass a test are changed, and stay well formed and the project's.
  changed-Sound :
      (g : FloatingIp → Bool) (f : FloatingIp → FloatingIp)
      → ((r : FloatingIp) → g r ≡ true → points_to r.project_id p ≡ true)
      → ((r : FloatingIp) → (f r).project_id ≡ r.project_id)
      → ((r : FloatingIp) → (f r).id ≡ r.id)
      → ((r : FloatingIp) → g r ≡ true → FloatingIpOk own r → FloatingIpOk own (f r))
      → Sound own q d₀ (record d { floating_ips = update g f d.floating_ips })
  changed-Sound g f mine same keeps good =
      with_floating_ips own q d₀ d h _
        (All-update (FloatingIpOk own) g f good d.floating_ips h.floating_ips.good)
        (DistinctIds-update g f keeps d.floating_ips h.distinct)
        (select-update (λ r. points_to r.project_id q) g f (λ r e. ground (arith, mine r e, same r))
          d.floating_ips)

  pub get_floating_ip_for_project-Sound :
      (f : Uuid) → Kept (Sound own q d₀) (get_floating_ip_for_project p f d)
  unfolding get_floating_ip_for_project
  get_floating_ip_for_project-Sound f =
      Kept-one_row (Sound own q d₀) (select_row (is_floating_ip p f) d.floating_ips) not_found d h

  bound-Sound :
      (f i : Uuid) (r : Instance)
      → select_row (can_bind p i) d.instances ≡ some r
      → Sound own q d₀
          (record d { floating_ips = update (is_bindable p f) (bind_to r d) d.floating_ips })
  bound-Sound f i r e =
      let fits = select_row_sound (can_bind p i) r d.instances e in
      let o = select_row-All (InstanceOk own) (can_bind p i) r d.instances h.instances.good e in
      changed-Sound (is_bindable p f) (bind_to r d) (λ x k. ground arith) (λ x. refl) (λ x. refl)
        (λ x k v. ground arith)

  pub try_associate_floating_ip-Sound :
      (f i : Uuid) → Kept (Sound own q d₀) (try_associate_floating_ip p f i d)
  unfolding try_associate_floating_ip
  try_associate_floating_ip-Sound f i =
      elim (Option-cases (select_row (can_bind p i) d.instances)) [
        | inl e ↦ rw (e, try_associate_floating_ip) tt
        | inr (r, e) ↦
            rw (e, try_associate_floating_ip)
              (elim (Option-cases (select_row (is_bindable p f) d.floating_ips)) [
                | inl k ↦ rw k tt
                | inr (x, k) ↦ rw k (bound-Sound f i r e)
              ])
      ]

  unbound-Sound :
      (f : Uuid)
      → Sound own q d₀
          (record d { floating_ips = update (is_floating_ip p f) (unbind d) d.floating_ips })
  unbound-Sound f =
      changed-Sound (is_floating_ip p f) (unbind d) (λ x k. ground arith) (λ x. refl) (λ x. refl)
        (λ x k v. ground arith)

  pub take_disassociate_floating_ip-Sound :
      (f : Uuid) → Kept (Sound own q d₀) (take_disassociate_floating_ip p f d)
  unfolding take_disassociate_floating_ip
  take_disassociate_floating_ip-Sound f = ground (arith, unbound-Sound f)

  pub rollback_floating_ip_association-Sound :
      (f : Uuid) → Kept (Sound own q d₀) (rollback_floating_ip_association p f d)
  unfolding rollback_floating_ip_association
  rollback_floating_ip_association-Sound f =
      changed-Sound (λ r. is_floating_ip p f r && is_active r.status) (unbind d)
        (λ x k. ground arith) (λ x. refl) (λ x. refl) (λ x k v. ground arith)

  pub clear_floating_ip_bindings_for_instance-Sound :
      (i : Uuid) → Kept (Sound own q d₀) (clear_floating_ip_bindings_for_instance p i d)
  unfolding clear_floating_ip_bindings_for_instance
  clear_floating_ip_bindings_for_instance-Sound i =
      changed-Sound (λ r. points_to r.project_id p && points_to r.instance_id i) (clear_binding d)
        (λ x k. ground arith) (λ x. refl) (λ x. refl) (λ x k v. ground arith)

  -- A floating IP is bound only to an instance of the project.
  pub try_associate_floating_ip-owner :
      (f i : Uuid) (x : FloatingIp) (d' : Db)
      → try_associate_floating_ip p f i d ≡ ok (x, d')
      → own i ≡ p
  unfolding try_associate_floating_ip
  try_associate_floating_ip-owner f i x d' e =
      elim (Option-cases (select_row (can_bind p i) d.instances)) [
        | inl k ↦ ground arith
        | inr (r, k) ↦ ground (
          arith,
          select_row_sound (can_bind p i) r d.instances k,
          select_row-All (InstanceOk own) (can_bind p i) r d.instances h.instances.good k,
        )
      ]
