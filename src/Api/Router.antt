-- ===== src/Api/Router.antt =====
-- The routes, the middleware before them, and the handlers outside projects: `Router` in
-- internal/httpapi/server.go, handlers_auth.go and handlers_projects.go.
use casper_cloud.Prelude.{Option, none, some, Text, codes, trim_space, is_empty, if◌then◌else◌}
use casper_cloud.Data.{Uuid}
use casper_cloud.Service.Accounts
use casper_cloud.Api.Responses.{
  Response, Content, Handler, respond, refuse, text_error, fixed_error,
}
use casper_cloud.Api.Bodies.{
  Decoded, with_body, RegisterRequest, LoginRequest, SwitchProjectRequest, CreateProjectRequest,
  ImageRequest, CreateVolumeRequest, AssociateFloatingIpRequest, InstanceActionRequest,
  CreateInstanceRequest, InstanceVolumeAttachRequest, CreateSnapshotRequest, register_is_valid,
  login_is_valid, switch_is_valid, project_is_valid,
}
use casper_cloud.Api.Access.{
  Passage, Identity, auth_middleware, project_token_matches_url, require_project_access,
}
use casper_cloud.Api.Server.{Server, must_parse}
use casper_cloud.Api.Projects.{
  create_image_as, list_images_as, get_image_as, update_image_as, delete_image_as, create_volume_as,
  list_volumes_as, get_volume_as, delete_volume_as, list_networks_as, allocate_floating_ip_as,
  list_floating_ips_as, associate_floating_ip_as, disassociate_floating_ip_as, create_instance_as,
  list_instances_as, get_instance_as, get_instance_stats_as, instance_actions_as,
  delete_instance_as, attach_volume_as, detach_volume_as, create_snapshot_as, list_snapshots_as,
  revert_snapshot_as,
}

-- A route below a project, with the texts of its path and its body.
pub data ProjectRoute : Type 0 where
  create_image : Decoded ImageRequest → ProjectRoute
  list_images : ProjectRoute
  get_image : Text → ProjectRoute
  update_image : Text → Decoded ImageRequest → ProjectRoute
  delete_image : Text → ProjectRoute
  create_volume : Decoded CreateVolumeRequest → ProjectRoute
  list_volumes : ProjectRoute
  get_volume delete_volume : Text → ProjectRoute
  list_networks : ProjectRoute
  allocate_floating_ip list_floating_ips : ProjectRoute
  associate_floating_ip : Text → Decoded AssociateFloatingIpRequest → ProjectRoute
  disassociate_floating_ip : Text → ProjectRoute
  create_instance : Decoded CreateInstanceRequest → ProjectRoute
  list_instances : ProjectRoute
  get_instance get_instance_stats delete_instance : Text → ProjectRoute
  instance_actions : Text → Decoded InstanceActionRequest → ProjectRoute
  attach_volume detach_volume : Text → Decoded InstanceVolumeAttachRequest → ProjectRoute
  create_snapshot : Text → Decoded CreateSnapshotRequest → ProjectRoute
  list_snapshots : Text → ProjectRoute
  revert_snapshot : Text → Text → ProjectRoute

-- A route, as the router finds it for a method and a path.
pub data Route : Type 0 where
  healthz : Route
  register : Decoded RegisterRequest → Route
  login : Decoded LoginRequest → Route
  switch_project : Decoded SwitchProjectRequest → Route
  create_project : Decoded CreateProjectRequest → Route
  list_projects : Route
  in_project : Text → ProjectRoute → Route

module _ (s : Server) where
  unfoldable pub handle_register : Decoded RegisterRequest → Handler
  handle_register body = with_body (register_is_valid s.tags) body λ r.
      respond (text_error 400) (λ x. Response.data_of 201 (Content.session x))
        (Accounts.register s.auth s.now (trim_space r.email) r.password)

  abbrev pub login_with : LoginRequest → Option Uuid → Handler
  login_with r project =
      respond (text_error 401) (λ x. Response.data_of 200 (Content.session x))
        (Accounts.login s.auth s.now
          (record { email = trim_space r.email; password = r.password; project_id = project }))

  unfoldable pub handle_login : Decoded LoginRequest → Handler
  handle_login body = with_body (login_is_valid s.tags) body λ r.
      if is_empty (trim_space r.project_id)
      then login_with r none
      else must_parse s.auth r.project_id λ p. login_with r (some p)

  unfoldable pub handle_switch_project : Identity → Decoded SwitchProjectRequest → Handler
  handle_switch_project who body = with_body (switch_is_valid s.tags) body λ r.
      must_parse s.auth r.project_id λ p.
        respond (text_error 403) (λ x. Response.data_of 200 (Content.session x))
          (Accounts.switch_project s.auth s.now who.user p)

  unfoldable pub handle_create_project : Identity → Decoded CreateProjectRequest → Handler
  handle_create_project who body = with_body project_is_valid body λ r.
      respond (fixed_error 500 (codes "could not create project"))
        (λ x. Response.data_of 201 (Content.project x))
        (Accounts.create s.net s.defaults who.user r.name)

  unfoldable pub handle_list_projects : Identity → Handler
  handle_list_projects who =
      respond (fixed_error 500 (codes "could not list projects"))
        (λ x. Response.data_of 200 (Content.projects x)) (Accounts.list_projects who.user)

  unfoldable pub handle_project_route : Uuid → ProjectRoute → Handler
  handle_project_route p (ProjectRoute.create_image body) = create_image_as s p body
  handle_project_route p ProjectRoute.list_images = list_images_as s p
  handle_project_route p (ProjectRoute.get_image i) = get_image_as s p i
  handle_project_route p (ProjectRoute.update_image i body) = update_image_as s p i body
  handle_project_route p (ProjectRoute.delete_image i) = delete_image_as s p i
  handle_project_route p (ProjectRoute.create_volume body) = create_volume_as s p body
  handle_project_route p ProjectRoute.list_volumes = list_volumes_as s p
  handle_project_route p (ProjectRoute.get_volume v) = get_volume_as s p v
  handle_project_route p (ProjectRoute.delete_volume v) = delete_volume_as s p v
  handle_project_route p ProjectRoute.list_networks = list_networks_as s p
  handle_project_route p ProjectRoute.allocate_floating_ip = allocate_floating_ip_as s p
  handle_project_route p ProjectRoute.list_floating_ips = list_floating_ips_as s p
  handle_project_route p (ProjectRoute.associate_floating_ip f body) =
      associate_floating_ip_as s p f body
  handle_project_route p (ProjectRoute.disassociate_floating_ip f) =
      disassociate_floating_ip_as s p f
  handle_project_route p (ProjectRoute.create_instance body) = create_instance_as s p body
  handle_project_route p ProjectRoute.list_instances = list_instances_as s p
  handle_project_route p (ProjectRoute.get_instance i) = get_instance_as s p i
  handle_project_route p (ProjectRoute.get_instance_stats i) = get_instance_stats_as s p i
  handle_project_route p (ProjectRoute.delete_instance i) = delete_instance_as s p i
  handle_project_route p (ProjectRoute.instance_actions i body) = instance_actions_as s p i body
  handle_project_route p (ProjectRoute.attach_volume i body) = attach_volume_as s p i body
  handle_project_route p (ProjectRoute.detach_volume i body) = detach_volume_as s p i body
  handle_project_route p (ProjectRoute.create_snapshot i body) = create_snapshot_as s p i body
  handle_project_route p (ProjectRoute.list_snapshots i) = list_snapshots_as s p i
  handle_project_route p (ProjectRoute.revert_snapshot i snap) = revert_snapshot_as s p i snap

  abbrev pub behind_scope : Identity → Text → ProjectRoute → Passage Uuid → Handler
  behind_scope who path route (Passage.stop r) = refuse r
  behind_scope who path route (Passage.go p) =
      require_project_access s.auth who path λ q. handle_project_route q route

  abbrev pub behind_auth : Route → Identity → Handler
  behind_auth Route.healthz who = refuse (Response.data_of 200 Content.health)
  behind_auth (Route.register body) who = handle_register body
  behind_auth (Route.login body) who = handle_login body
  behind_auth (Route.switch_project body) who = handle_switch_project who body
  behind_auth (Route.create_project body) who = handle_create_project who body
  behind_auth Route.list_projects who = handle_list_projects who
  behind_auth (Route.in_project path route) who =
      behind_scope who path route (project_token_matches_url s.auth who path)

  abbrev pub authenticated : Route → Passage Identity → Handler
  authenticated route (Passage.stop r) = refuse r
  authenticated route (Passage.go who) = behind_auth route who

  -- A request with the header `Authorization`: the empty text where it has none.
  unfoldable pub serve : Text → Route → Handler
  unfolding auth_middleware project_token_matches_url
  serve header Route.healthz = refuse (Response.data_of 200 Content.health)
  serve header (Route.register body) = handle_register body
  serve header (Route.login body) = handle_login body
  serve header route = authenticated route (auth_middleware s.auth s.now header)
