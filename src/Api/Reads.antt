-- ===== src/Api/Reads.antt =====
-- The reads of a project, and what it does to its images, leave the tables sound.
use casper_cloud.Prelude.{◌≢◌, Option, none, some, Text}
use casper_cloud.Data.{Uuid, Db}
use casper_cloud.Exec.{db_call}
use casper_cloud.Exec.Keeps.{Keeps, Keeps-db_call, Keeps-bind, Keeps-raise, keeps_rules}
use casper_cloud.Repository.Kept.{Kept-one_row}
use casper_cloud.Repository.Sound.{Sound}
use casper_cloud.Repository.Sound.Images.{
  create_image-Sound, update_image-Sound, delete_image-Sound,
}
use casper_cloud.Repository.Sound.Volumes.{get_volume-Sound}
use casper_cloud.Repository.Images.{
  create_image, get_image, list_images, update_image, delete_image,
}
use casper_cloud.Repository.Instances.{list_instances}
use casper_cloud.Repository.Snapshots.{list_snapshots_for_instance}
use casper_cloud.Repository.Volumes.{get_volume, list_volumes}
use casper_cloud.Repository.Networks.{list_networks_for_project}
use casper_cloud.Repository.FloatingIps.{list_floating_ips_for_project}
use casper_cloud.Service.Accounts.{list_networks}
use casper_cloud.Service.Async.{get_instance_stats, read_stats, Fetched}
use casper_cloud.Service.Snapshots.{list_snapshots}
use casper_cloud.Service.Requests
use casper_cloud.Service.Sound.{Keeps-get_instance}
use casper_cloud.Api.Server.{Server}

module _ (own : Uuid → Uuid) (p q : Uuid) (ne : p ≢ q) (d₀ : Db) where
  pub Keeps-create_image :
      (name url text : Text) → Keeps (Sound own q d₀) (db_call (create_image p name url text))
  Keeps-create_image name url text =
      Keeps-db_call _ (λ d h. create_image-Sound own p q ne d₀ d h name url text)

  pub Keeps-get_image : (i : Uuid) → Keeps (Sound own q d₀) (db_call (get_image p i))
  unfolding get_image
  Keeps-get_image i = Keeps-db_call _ (λ d h. Kept-one_row (Sound own q d₀) _ _ d h)

  pub Keeps-list_images : Keeps (Sound own q d₀) (db_call (list_images p))
  unfolding list_images
  Keeps-list_images = Keeps-db_call _ (λ d h. h)

  pub Keeps-update_image :
      (i : Uuid) (name url text : Text)
      → Keeps (Sound own q d₀) (db_call (update_image p i name url text))
  Keeps-update_image i name url text =
      Keeps-db_call _ (λ d h. update_image-Sound own p q ne d₀ d h i name url text)

  pub Keeps-delete_image : (i : Uuid) → Keeps (Sound own q d₀) (db_call (delete_image p i))
  Keeps-delete_image i = Keeps-db_call _ (λ d h. delete_image-Sound own p q ne d₀ d h i)

  pub Keeps-get_volume : (v : Uuid) → Keeps (Sound own q d₀) (db_call (get_volume p v))
  Keeps-get_volume v = Keeps-db_call _ (λ d h. get_volume-Sound own p q ne d₀ d h v)

  pub Keeps-list_volumes : Keeps (Sound own q d₀) (db_call (list_volumes p))
  unfolding list_volumes
  Keeps-list_volumes = Keeps-db_call _ (λ d h. h)

  pub Keeps-list_floating_ips : Keeps (Sound own q d₀) (db_call (list_floating_ips_for_project p))
  unfolding list_floating_ips_for_project
  Keeps-list_floating_ips = Keeps-db_call _ (λ d h. h)

  pub Keeps-list_networks : (s : Server) → Keeps (Sound own q d₀) (list_networks s.by_name p)
  unfolding list_networks list_networks_for_project
  Keeps-list_networks s = Keeps-db_call _ (λ d h. h)

  pub Keeps-list : Keeps (Sound own q d₀) (Requests.list p)
  unfolding Requests.list list_instances
  Keeps-list = Keeps-db_call _ (λ d h. h)

  pub Keeps-get : (i : Uuid) → Keeps (Sound own q d₀) (Requests.get p i)
  unfolding Requests.get
  Keeps-get i = Keeps-get_instance own p q ne d₀ i

  pub Keeps-list_snapshots : (i : Uuid) → Keeps (Sound own q d₀) (list_snapshots p i)
  unfolding list_snapshots list_snapshots_for_instance
  Keeps-list_snapshots i =
      Keeps-bind _ _ (Keeps-get_instance own p q ne d₀ i) (λ _. Keeps-db_call _ (λ d h. h))

  pub Keeps-read_stats :
      (s : Server) (i : Uuid) (x : Fetched) → Keeps (Sound own q d₀) (read_stats s.now p i x)
  Keeps-read_stats s i Fetched.no_payload = Keeps-raise _
  Keeps-read_stats s i Fetched.fetch_failed = Keeps-raise _
  Keeps-read_stats s i Fetched.not_json = Keeps-raise _
  Keeps-read_stats s i (Fetched.payload x) = search keeps_rules

  pub Keeps-get_instance_stats :
      (s : Server) (i : Uuid) → Keeps (Sound own q d₀) (get_instance_stats s.fetch s.now p i)
  Keeps-get_instance_stats s i = go s.fetch
    where
      go : (o : Option (Uuid → Fetched)) → Keeps (Sound own q d₀) (get_instance_stats o s.now p i)
      go none = unfold get_instance_stats in Keeps-raise _
      go (some fetch) =
          unfold get_instance_stats in
          Keeps-bind _ _ (Keeps-get_instance own p q ne d₀ i) (λ _. Keeps-read_stats s i (fetch i))
