-- ===== src/Api/Projects.antt =====
-- The handlers below /v1/projects/{projectID}: internal/httpapi/handlers_*.go.
use casper_cloud.Prelude.{Option, Text, codes}
use casper_cloud.Data.{Uuid}
use casper_cloud.Exec.{db_call}
use casper_cloud.Repository.Images.{
  create_image, get_image, list_images, update_image, delete_image,
}
use casper_cloud.Repository.Volumes.{get_volume, list_volumes}
use casper_cloud.Repository.FloatingIps.{list_floating_ips_for_project}
use casper_cloud.Service.Accounts.{list_networks}
use casper_cloud.Service.Async.{CreateInstanceInput, create_async, get_instance_stats}
use casper_cloud.Service.Requests
use casper_cloud.Service.Requests.{request_instance_action}
use casper_cloud.Service.Snapshots.{
  list_snapshots, request_snapshot_create, request_snapshot_revert,
}
use casper_cloud.Service.FloatingIps.{allocate, request_associate, request_disassociate}
use casper_cloud.Service.Volumes
use casper_cloud.Api.Responses.{
  Response, Content, Handler, respond, plain_error, full_error, fixed_error, accepted_response,
  no_content_response,
}
use casper_cloud.Api.Bodies.{
  Decoded, with_body, ImageRequest, CreateVolumeRequest, AssociateFloatingIpRequest,
  InstanceActionRequest, CreateInstanceRequest, InstanceVolumeAttachRequest, CreateSnapshotRequest,
  image_is_valid, volume_is_valid, associate_is_valid, action_is_valid, instance_is_valid,
  attachment_is_valid, snapshot_is_valid,
}
use casper_cloud.Api.Server.{Server, with_id, must_parse, optional_id, size_of}

-- Each handler begins with `requireProjectAccess`, which the router's model calls for all of them; what
-- follows it is here. `p` is the project of the path.
module _ (s : Server) (p : Uuid) where
  unfoldable pub create_image_as : Decoded ImageRequest → Handler
  create_image_as body = with_body image_is_valid body λ r.
      respond (fixed_error 500 (codes "could not create image"))
        (λ x. Response.data_of 201 (Content.image x))
        (db_call (create_image p r.name r.source_url r.description))

  unfoldable pub list_images_as : Handler
  list_images_as =
      respond (fixed_error 500 (codes "could not list images"))
        (λ x. Response.data_of 200 (Content.images x)) (db_call (list_images p))

  unfoldable pub get_image_as : Text → Handler
  get_image_as i = with_id s.auth i (codes "invalid image id") λ x.
      respond plain_error (λ r. Response.data_of 200 (Content.image r)) (db_call (get_image p x))

  unfoldable pub update_image_as : Text → Decoded ImageRequest → Handler
  update_image_as i body = with_id s.auth i (codes "invalid image id") λ x.
      with_body image_is_valid body λ r.
        respond plain_error (λ y. Response.data_of 200 (Content.image y))
          (db_call (update_image p x r.name r.source_url r.description))

  unfoldable pub delete_image_as : Text → Handler
  delete_image_as i =
      with_id s.auth i (codes "invalid image id")
        λ x. respond plain_error no_content_response (db_call (delete_image p x))

  unfoldable pub create_volume_as : Decoded CreateVolumeRequest → Handler
  create_volume_as body = with_body volume_is_valid body λ r.
      respond full_error (λ x. Response.data_of 201 (Content.volume x))
        (Volumes.create s.new_id p r.name (size_of r.size_gb))

  unfoldable pub list_volumes_as : Handler
  list_volumes_as =
      respond (fixed_error 500 (codes "could not list volumes"))
        (λ x. Response.data_of 200 (Content.volumes x)) (db_call (list_volumes p))

  unfoldable pub get_volume_as : Text → Handler
  get_volume_as v = with_id s.auth v (codes "invalid volume id") λ x.
      respond plain_error (λ r. Response.data_of 200 (Content.volume r)) (db_call (get_volume p x))

  unfoldable pub delete_volume_as : Text → Handler
  delete_volume_as v =
      with_id s.auth v (codes "invalid volume id")
        λ x. respond full_error no_content_response (Volumes.delete p x)

  unfoldable pub list_networks_as : Handler
  list_networks_as =
      respond (fixed_error 500 (codes "could not list networks"))
        (λ x. Response.data_of 200 (Content.networks x)) (list_networks s.by_name p)

  unfoldable pub allocate_floating_ip_as : Handler
  allocate_floating_ip_as =
      respond full_error (λ x. Response.data_of 201 (Content.floating_ip x))
        (allocate s.locked_ips p)

  unfoldable pub list_floating_ips_as : Handler
  list_floating_ips_as =
      respond full_error (λ x. Response.data_of 200 (Content.floating_ips x))
        (db_call (list_floating_ips_for_project p))

  unfoldable pub associate_floating_ip_as : Text → Decoded AssociateFloatingIpRequest → Handler
  associate_floating_ip_as f body = with_id s.auth f (codes "invalid floating ip id") λ x.
      with_body (associate_is_valid s.tags) body λ r.
        with_id s.auth r.instance_id (codes "invalid instance id")
          λ i. respond full_error accepted_response (request_associate p x i)

  unfoldable pub disassociate_floating_ip_as : Text → Handler
  disassociate_floating_ip_as f =
      with_id s.auth f (codes "invalid floating ip id")
        λ x. respond full_error accepted_response (request_disassociate p x)

  abbrev pub input_of : CreateInstanceRequest → Uuid → Option Uuid → CreateInstanceInput
  input_of r image n = record {
    name = r.name;
    image_id = image;
    cloud = record {
      hostname = r.hostname;
      username = r.username;
      ssh_public_key = r.ssh_public_key;
      packages = r.packages;
      run_commands = r.run_commands;
    };
    network_id = n;
  }

  unfoldable pub create_instance_as : Decoded CreateInstanceRequest → Handler
  create_instance_as body = with_body (instance_is_valid s.tags) body λ r.
      must_parse s.auth r.image_id λ image.
        optional_id s.auth r.network_id (codes "invalid network id") λ n.
          respond full_error (λ x. Response.data_of 202 (Content.created x))
            (create_async s.net s.locked_slots s.new_id s.mac p (input_of r image n))

  unfoldable pub list_instances_as : Handler
  list_instances_as =
      respond (fixed_error 500 (codes "could not list instances"))
        (λ x. Response.data_of 200 (Content.instances x)) (Requests.list p)

  unfoldable pub get_instance_as : Text → Handler
  get_instance_as i = with_id s.auth i (codes "invalid instance id") λ x.
      respond plain_error (λ r. Response.data_of 200 (Content.instance_row r)) (Requests.get p x)

  unfoldable pub get_instance_stats_as : Text → Handler
  get_instance_stats_as i = with_id s.auth i (codes "invalid instance id") λ x.
      respond full_error (λ r. Response.data_of 200 (Content.stats r))
        (get_instance_stats s.fetch s.now p x)

  unfoldable pub instance_actions_as : Text → Decoded InstanceActionRequest → Handler
  instance_actions_as i body = with_id s.auth i (codes "invalid instance id") λ x.
      with_body action_is_valid body
        λ r. respond full_error accepted_response (request_instance_action p x r.action)

  unfoldable pub delete_instance_as : Text → Handler
  delete_instance_as i =
      with_id s.auth i (codes "invalid instance id")
        λ x. respond full_error accepted_response (request_instance_action p x (codes "destroy"))

  unfoldable pub attach_volume_as : Text → Decoded InstanceVolumeAttachRequest → Handler
  attach_volume_as i body = with_id s.auth i (codes "invalid instance id") λ x.
      with_body (attachment_is_valid s.tags) body λ r.
        with_id s.auth r.volume_id (codes "invalid volume id")
          λ v. respond full_error no_content_response (Volumes.attach s.target p x v)

  unfoldable pub detach_volume_as : Text → Decoded InstanceVolumeAttachRequest → Handler
  detach_volume_as i body = with_id s.auth i (codes "invalid instance id") λ x.
      with_body (attachment_is_valid s.tags) body λ r.
        with_id s.auth r.volume_id (codes "invalid volume id")
          λ v. respond full_error no_content_response (Volumes.detach p x v)

  unfoldable pub create_snapshot_as : Text → Decoded CreateSnapshotRequest → Handler
  create_snapshot_as i body = with_id s.auth i (codes "invalid instance id") λ x.
      with_body snapshot_is_valid body
        λ r. respond full_error accepted_response (request_snapshot_create s.new_id p x r.name)

  unfoldable pub list_snapshots_as : Text → Handler
  list_snapshots_as i =
      with_id s.auth i (codes "invalid instance id") λ x.
        respond full_error (λ r. Response.data_of 200 (Content.snapshots r)) (list_snapshots p x)

  unfoldable pub revert_snapshot_as : Text → Text → Handler
  revert_snapshot_as i snap = with_id s.auth i (codes "invalid instance id") λ x.
      with_id s.auth snap (codes "invalid snapshot id")
        λ y. respond full_error accepted_response (request_snapshot_revert p x y)
