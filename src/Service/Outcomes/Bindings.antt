-- ===== src/Service/Outcomes/Bindings.antt =====
-- A floating IP is bound to an instance and taken from it again.
use casper_cloud.Prelude.{
  ◌≡◌, refl, ◌&&◌, true, none, some, select_row, select_row_sound, select_row-narrow, update,
  select_row-update, select_row-update_in, arith,
}
use casper_cloud.Data.{Uuid, Inet, FloatingIpStatus, Instance, FloatingIp, Db}
use casper_cloud.Exec.{ok}
use casper_cloud.Repository.Kept.{one_row-ok}
use casper_cloud.Repository.FloatingIps.{
  is_floating_ip, is_bindable, is_active, can_bind, bind_to, unbind, get_floating_ip_for_project,
  try_associate_floating_ip, take_disassociate_floating_ip,
}

-- The tables after the binding, and after it was taken back.
abbrev pub bound : Uuid → Uuid → Instance → Db → Db
bound p f inst d = record d {
  floating_ips = update (is_bindable p f) (bind_to inst d) d.floating_ips;
}

abbrev pub unbound : Uuid → Uuid → Db → Db
unbound p f d = record d { floating_ips = update (is_floating_ip p f) (unbind d) d.floating_ips }

bound-row :
    (p f : Uuid) (inst : Instance) (r : FloatingIp) (d : Db)
    → select_row (is_floating_ip p f) d.floating_ips ≡ some r
    → is_bindable p f r ≡ true
    → select_row (is_floating_ip p f) (bound p f inst d).floating_ips ≡ some (bind_to inst d r)
bound-row p f inst r d found free =
    select_row-update_in (is_floating_ip p f) (is_bindable p f) (bind_to inst d) (λ a. refl) r
      d.floating_ips free found

-- The row as it was allocated.
abbrev pub freed : FloatingIp → Db → FloatingIp
freed r d = record r {
  instance_id = none;
  private_ip = none;
  status = FloatingIpStatus.allocated;
  updated_at = d.now;
}

take_disassociate-active :
    (p f : Uuid) (a : Inet) (x : FloatingIp) (d : Db)
    → select_row (λ y. is_floating_ip p f y && is_active y.status) d.floating_ips ≡ some x
    → x.private_ip ≡ some a
    → take_disassociate_floating_ip p f d
      ≡ ok (record { public_ip = x.public_ip; private_ip = a }, unbound p f d)
unfolding take_disassociate_floating_ip
take_disassociate-active p f a x d found has = rw (found, has) refl

-- A floating IP of the project that is allocated and not bound, and a running instance of the project
-- with an address: the binding is done, it is read back active and with the instance's address, and
-- taking it back gives the pair of addresses and leaves the row allocated, with no
-- instance and no private address.
pub try_associate-take_disassociate :
    (p f i : Uuid) (a : Inet) (inst : Instance) (r : FloatingIp) (d : Db)
    → get_floating_ip_for_project p f d ≡ ok (r, d)
    → is_bindable p f r ≡ true
    → select_row (can_bind p i) d.instances ≡ some inst
    → inst.ipv4_address ≡ some a
    → (try_associate_floating_ip p f i d ≡ ok (bind_to inst d r, bound p f inst d))
      × (get_floating_ip_for_project p f (bound p f inst d)
          ≡ ok (bind_to inst d r, bound p f inst d))
      × (take_disassociate_floating_ip p f (bound p f inst d)
          ≡ ok (record { public_ip = r.public_ip; private_ip = a }, unbound p f (bound p f inst d)))
      × (get_floating_ip_for_project p f (unbound p f (bound p f inst d))
          ≡ ok (freed r d, unbound p f (bound p f inst d)))
unfolding get_floating_ip_for_project try_associate_floating_ip take_disassociate_floating_ip
try_associate-take_disassociate p f i a inst r d got free here address =
    let (found, same) = one_row-ok _ _ _ _ _ got in
    let row = bound-row p f inst r d found free in
    let bindable =
      select_row-narrow (is_floating_ip p f) (is_bindable p f) r d.floating_ips
        (λ x h. ground arith) free found in
    let its = select_row_sound (is_floating_ip p f) r d.floating_ips found in
    let active =
      select_row-narrow (is_floating_ip p f) (λ x. is_floating_ip p f x && is_active x.status)
        (bind_to inst d r) (bound p f inst d).floating_ips (λ x h. ground arith) (rw its refl)
        row in
    (
      rw (here, bindable) refl,
      rw row refl,
      take_disassociate-active p f a (bind_to inst d r) (bound p f inst d) active address,
      rw
          (select_row-update (is_floating_ip p f) (unbind (bound p f inst d)) (λ x h. h)
            (bind_to inst d r) _ row)
          refl,
    )
