-- ===== src/Service/Sound/Create.antt =====
-- What the request for a new instance keeps.
use casper_cloud.Prelude.{
  arith, ap, select_row, select_row_sound, select_row-All, ◌∙◌, ◌≢◌, ◌≡◌, refl, ◌==◌, Bool, Option,
  none, some, Text,
}
use casper_cloud.Data.{Uuid, TaskStatus, TaskType, InstanceState, Network, IpSlot, Db}
use casper_cloud.Exec.{Result, ok, err, World, Exec, db_call}
use casper_cloud.Exec.Keeps.{
  Keeps, Kept, Keeps-db_call, Keeps-bind-db_call, Keeps-bind, Keeps-on_error, Keeps-ignore,
  Keeps-publish_task, Keeps-pure, Gives, Gives-db_call, Gives-if, Gives-bind, Keeps-bind-Gives,
}
use casper_cloud.Repository.Kept.{Kept-one_row, one_row-ok}
use casper_cloud.Repository.Sound.{Sound, NetworkOk}
use casper_cloud.Repository.Sound.Rows.{create_task-Sound}
use casper_cloud.Repository.Images.{get_image}
use casper_cloud.Repository.Networks.{
  Net, is_network, is_default_of, id_of_row, get_network_for_project, get_default_network_id,
}
use casper_cloud.Repository.Create.{create_instance_with_ipam}
use casper_cloud.CloudInit.{render_user_data}
use casper_cloud.Service.Async.{
  CreateInstanceInput, network_of, default_network, lift, wrapped, params_of, wrap_error,
  create_async,
}
use casper_cloud.Service.Sound.{Keeps-fail_task, Keeps-set_state}
use casper_cloud.Repository.Sound.Create.{
  create_instance_with_ipam-Sound, create_instance_with_ipam-id,
}

module _ (own : Uuid → Uuid) (p q : Uuid) (ne : p ≢ q) (d₀ : Db) (net : Net) where
  Keeps-wrap_error :
      {A : Type 0} (m : Exec A) → Keeps (Sound own q d₀) m → Keeps (Sound own q d₀) (wrap_error m)
  Keeps-wrap_error {A} m k = record { at = λ w h. go (m w) (k.at w h) }
    where
      go : (r : Result A × World) → Sound own q d₀ r.1.db → Sound own q d₀ (wrapped r).1.db
      go (ok a, w) h = h
      go (err e, w) h = h

  Keeps-get_image : (j : Uuid) → Keeps (Sound own q d₀) (db_call (get_image p j))
  unfolding get_image
  Keeps-get_image j = Keeps-db_call _ (λ d h. Kept-one_row (Sound own q d₀) _ _ d h)

  -- A network that is found by the project is the project's.
  abbrev IsOurs : Network → Type 0
  IsOurs n = own n.id ≡ p

  Gives-get_network :
      (n : Uuid) → Gives (Sound own q d₀) IsOurs (db_call (get_network_for_project p n))
  unfolding get_network_for_project
  Gives-get_network n =
      Gives-db_call _ (λ d h. Kept-one_row (Sound own q d₀) _ _ d h)
        (λ d r d' h e.
          let (found, same) = one_row-ok _ _ d r d' e in
          ground (
            arith,
            select_row_sound (is_network p n) r d.networks found,
            select_row-All (NetworkOk own) (is_network p n) r d.networks h.networks.good found,
          ))

  Keeps-get_default : Keeps (Sound own q d₀) (db_call (get_default_network_id p))
  unfolding get_default_network_id
  Keeps-get_default = Keeps-db_call _ (λ d h. go (select_row (is_default_of p) d.networks) d h)
    where
      go : (o : Option Network) (d : Db) → Sound own q d₀ d → Kept (Sound own q d₀) (id_of_row o d)
      go none d h = tt
      go (some r) d h = h

  Gives-default_network : Gives (Sound own q d₀) IsOurs (default_network p)
  Gives-default_network =
      Gives-bind _ _ _ (Keeps-wrap_error _ Keeps-get_default) (λ n. Gives-get_network n)

  Gives-network_of : (o : Option Uuid) → Gives (Sound own q d₀) IsOurs (network_of p o)
  unfolding network_of
  Gives-network_of none = Gives-default_network
  Gives-network_of (some n) = Gives-if (n == 0) _ _ Gives-default_network (Gives-get_network n)

  Keeps-lift : {A : Type 0} (r : Result A) → Keeps (Sound own q d₀) (lift r)
  Keeps-lift r = record { at = λ w h. h }

  pub Keeps-create_async :
      (locked : IpSlot → Bool) (i : Uuid) (mac : Text) (input : CreateInstanceInput)
      → own i ≡ p
      → Keeps (Sound own q d₀) (create_async net locked i mac p input)
  unfolding create_async
  Keeps-create_async locked i mac input o = Keeps-bind _ _ (Keeps-get_image input.image_id) λ image.
      Keeps-bind _ _ (Keeps-lift (render_user_data input.cloud)) λ user_data.
        Keeps-bind-Gives IsOurs _ _ (Gives-network_of input.network_id) λ n ours.
          let x = params_of i mac p input user_data n in
          Keeps-bind-db_call (create_instance_with_ipam net locked x) _ (λ r. own r.id ≡ p)
            (λ d h. create_instance_with_ipam-Sound own p q ne d₀ net locked x d refl o ours h)
            (λ d r d' h e. ap own (create_instance_with_ipam-id net locked x r d d' e) ∙ o)
            λ r k.
              Keeps-bind _ _
                (Keeps-db_call _ (λ d h.
                  create_task-Sound own p q ne d₀ d h TaskType.instance_create r.id
                    TaskStatus.pending k))
                λ task.
                  Keeps-bind _ _
                    (Keeps-on_error _ _ (Keeps-publish_task _) (λ e.
                      Keeps-bind _ _ (Keeps-fail_task own p q ne d₀ task.id e) (λ _.
                        Keeps-ignore _ (Keeps-set_state own p q ne d₀ r.id InstanceState.error))))
                    (λ _. Keeps-pure _)
