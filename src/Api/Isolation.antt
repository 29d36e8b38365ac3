-- ===== src/Api/Isolation.antt =====
-- What the requests of one project do to another.
use casper_cloud.Prelude.{◌≡◌, ◌≢◌}
use casper_cloud.Data.{Uuid, Db}
use casper_cloud.Repository.Sound.{Sound}
use casper_cloud.Service.Sound.Instances.{Keeps-request_instance_action}
use casper_cloud.Service.Sound.Snapshots.{
  Keeps-request_snapshot_revert, Keeps-request_snapshot_create,
}
use casper_cloud.Service.Sound.FloatingIps.{
  Keeps-request_associate, Keeps-request_disassociate, Keeps-allocate,
}
use casper_cloud.Service.Sound.Volumes.{Keeps-create, Keeps-delete, Keeps-attach, Keeps-detach}
use casper_cloud.Service.Sound.Create.{Keeps-create_async}
use casper_cloud.Exec.{World}
use casper_cloud.Api.Responses.{Handler}
use casper_cloud.Api.Server.{Server}
use casper_cloud.Api.Scope.{
  Holds, Holds-respond, Holds-with_id, Holds-with_body, Holds-must_parse, Holds-optional_id,
}
use casper_cloud.Api.Reads.{
  Keeps-create_image, Keeps-get_image, Keeps-list_images, Keeps-update_image, Keeps-delete_image,
  Keeps-get_volume, Keeps-list_volumes, Keeps-list_floating_ips, Keeps-list_networks, Keeps-list,
  Keeps-get, Keeps-list_snapshots, Keeps-get_instance_stats,
}
use casper_cloud.Api.Projects.{
  create_image_as, list_images_as, get_image_as, update_image_as, delete_image_as, create_volume_as,
  list_volumes_as, get_volume_as, delete_volume_as, list_networks_as, allocate_floating_ip_as,
  list_floating_ips_as, associate_floating_ip_as, disassociate_floating_ip_as, create_instance_as,
  list_instances_as, get_instance_as, get_instance_stats_as, instance_actions_as,
  delete_instance_as, attach_volume_as, detach_volume_as, create_snapshot_as, list_snapshots_as,
  revert_snapshot_as,
}
use casper_cloud.Api.Router.{ProjectRoute, handle_project_route}

module _ (own : Uuid → Uuid) (p q : Uuid) (ne : p ≢ q) (d₀ : Db) (s : Server) where
  after :
      (h : Handler) (w : World)
      → Holds (Sound own q d₀) h
      → Sound own q d₀ w.db
      → Sound own q d₀ (h w).1.db
  after h w k v = k.at w v

  -- A new instance gets an id that is one of the project's.
  pub handle_project_route-Sound :
      (route : ProjectRoute)
      → own s.new_id ≡ p
      → (w : World) → Sound own q d₀ w.db
      → Sound own q d₀ (handle_project_route s p route w).1.db
  unfolding handle_project_route create_image_as list_images_as get_image_as update_image_as
      delete_image_as create_volume_as list_volumes_as get_volume_as delete_volume_as
      list_networks_as allocate_floating_ip_as list_floating_ips_as associate_floating_ip_as
      disassociate_floating_ip_as create_instance_as list_instances_as get_instance_as
      get_instance_stats_as delete_instance_as instance_actions_as attach_volume_as detach_volume_as
      create_snapshot_as list_snapshots_as revert_snapshot_as
  handle_project_route-Sound (ProjectRoute.create_image body) o w h =
      after _ w
        (Holds-with_body _ body _ λ r _.
          Holds-respond _ _ _ (Keeps-create_image own p q ne d₀ r.name r.source_url r.description))
        h
  handle_project_route-Sound ProjectRoute.list_images o w h =
      after _ w (Holds-respond _ _ _ (Keeps-list_images own p q ne d₀)) h
  handle_project_route-Sound (ProjectRoute.get_image i) o w h =
      after _ w (Holds-with_id _ i _ _ λ x. Holds-respond _ _ _ (Keeps-get_image own p q ne d₀ x)) h
  handle_project_route-Sound (ProjectRoute.update_image i body) o w h =
      after _ w
        (Holds-with_id _ i _ _ λ x. Holds-with_body _ body _ λ r _.
          Holds-respond _ _ _
            (Keeps-update_image own p q ne d₀ x r.name r.source_url r.description))
        h
  handle_project_route-Sound (ProjectRoute.delete_image i) o w h =
      after _ w
        (Holds-with_id _ i _ _ λ x. Holds-respond _ _ _ (Keeps-delete_image own p q ne d₀ x)) h
  handle_project_route-Sound (ProjectRoute.create_volume body) o w h =
      after _ w
        (Holds-with_body _ body _
          λ r _. Holds-respond _ _ _ (Keeps-create own p q ne d₀ s.new_id r.name _))
        h
  handle_project_route-Sound ProjectRoute.list_volumes o w h =
      after _ w (Holds-respond _ _ _ (Keeps-list_volumes own p q ne d₀)) h
  handle_project_route-Sound (ProjectRoute.get_volume v) o w h =
      after _ w (Holds-with_id _ v _ _ λ x. Holds-respond _ _ _ (Keeps-get_volume own p q ne d₀ x))
        h
  handle_project_route-Sound (ProjectRoute.delete_volume v) o w h =
      after _ w (Holds-with_id _ v _ _ λ x. Holds-respond _ _ _ (Keeps-delete own p q ne d₀ x)) h
  handle_project_route-Sound ProjectRoute.list_networks o w h =
      after _ w (Holds-respond _ _ _ (Keeps-list_networks own p q ne d₀ s)) h
  handle_project_route-Sound ProjectRoute.allocate_floating_ip o w h =
      after _ w (Holds-respond _ _ _ (Keeps-allocate own p q ne d₀ s.locked_ips)) h
  handle_project_route-Sound ProjectRoute.list_floating_ips o w h =
      after _ w (Holds-respond _ _ _ (Keeps-list_floating_ips own p q ne d₀)) h
  handle_project_route-Sound (ProjectRoute.associate_floating_ip f body) o w h =
      after _ w
        (Holds-with_id _ f _ _ λ x. Holds-with_body _ body _ λ r _.
          Holds-with_id _ r.instance_id _ _
            λ i. Holds-respond _ _ _ (Keeps-request_associate own p q ne d₀ x i))
        h
  handle_project_route-Sound (ProjectRoute.disassociate_floating_ip f) o w h =
      after _ w
        (Holds-with_id _ f _ _
          λ x. Holds-respond _ _ _ (Keeps-request_disassociate own p q ne d₀ x))
        h
  handle_project_route-Sound (ProjectRoute.create_instance body) o w h =
      after _ w
        (Holds-with_body _ body _ λ r _. Holds-must_parse _ r.image_id _ λ image.
          Holds-optional_id _ r.network_id _ _ λ n.
            Holds-respond _ _ _
              (Keeps-create_async own p q ne d₀ s.net s.locked_slots s.new_id s.mac _ o))
        h
  handle_project_route-Sound ProjectRoute.list_instances o w h =
      after _ w (Holds-respond _ _ _ (Keeps-list own p q ne d₀)) h
  handle_project_route-Sound (ProjectRoute.get_instance i) o w h =
      after _ w (Holds-with_id _ i _ _ λ x. Holds-respond _ _ _ (Keeps-get own p q ne d₀ x)) h
  handle_project_route-Sound (ProjectRoute.get_instance_stats i) o w h =
      after _ w
        (Holds-with_id _ i _ _
          λ x. Holds-respond _ _ _ (Keeps-get_instance_stats own p q ne d₀ s x))
        h
  handle_project_route-Sound (ProjectRoute.delete_instance i) o w h =
      after _ w
        (Holds-with_id _ i _ _
          λ x. Holds-respond _ _ _ (Keeps-request_instance_action own p q ne d₀ x _))
        h
  handle_project_route-Sound (ProjectRoute.instance_actions i body) o w h =
      after _ w
        (Holds-with_id _ i _ _ λ x.
          Holds-with_body _ body _
            λ r _. Holds-respond _ _ _ (Keeps-request_instance_action own p q ne d₀ x r.action))
        h
  handle_project_route-Sound (ProjectRoute.attach_volume i body) o w h =
      after _ w
        (Holds-with_id _ i _ _ λ x. Holds-with_body _ body _ λ r _.
          Holds-with_id _ r.volume_id _ _
            λ v. Holds-respond _ _ _ (Keeps-attach own p q ne d₀ s.target x v))
        h
  handle_project_route-Sound (ProjectRoute.detach_volume i body) o w h =
      after _ w
        (Holds-with_id _ i _ _ λ x. Holds-with_body _ body _ λ r _.
          Holds-with_id _ r.volume_id _ _ λ v. Holds-respond _ _ _ (Keeps-detach own p q ne d₀ x v))
        h
  handle_project_route-Sound (ProjectRoute.create_snapshot i body) o w h =
      after _ w
        (Holds-with_id _ i _ _ λ x. Holds-with_body _ body _ λ r _.
          Holds-respond _ _ _ (Keeps-request_snapshot_create own p q ne d₀ s.new_id x r.name))
        h
  handle_project_route-Sound (ProjectRoute.list_snapshots i) o w h =
      after _ w
        (Holds-with_id _ i _ _ λ x. Holds-respond _ _ _ (Keeps-list_snapshots own p q ne d₀ x)) h
  handle_project_route-Sound (ProjectRoute.revert_snapshot i snap) o w h =
      after _ w
        (Holds-with_id _ i _ _ λ x.
          Holds-with_id _ snap _ _
            λ y. Holds-respond _ _ _ (Keeps-request_snapshot_revert own p q ne d₀ x y))
        h
