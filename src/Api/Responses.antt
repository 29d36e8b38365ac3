-- ===== src/Api/Responses.antt =====
-- What is answered: internal/httpapi/responses.go and `mapRepoError` in server.go.
use casper_cloud.Prelude.{◌==◌, ℕ, List, Text, codes, if◌then◌else◌}
use casper_cloud.Data.{Error, Project, Network, Image, Instance, Task, Snapshot, Volume, FloatingIp}
use casper_cloud.Exec.{Result, ok, err, World, Exec}
use casper_cloud.Repository.Statement.{Done}
use casper_cloud.Service.Accounts.{AuthResponse}
use casper_cloud.Service.Async.{CreateInstanceResult, Payload}

-- The value of "data".
pub data Content : Type 0 where
  health : Content
  session : AuthResponse → Content
  project : Project → Content
  projects : List Project → Content
  image : Image → Content
  images : List Image → Content
  volume : Volume → Content
  volumes : List Volume → Content
  networks : List Network → Content
  floating_ip : FloatingIp → Content
  floating_ips : List FloatingIp → Content
  created : CreateInstanceResult → Content
  instance_row : Instance → Content
  instances : List Instance → Content
  stats : Payload → Content
  accepted : Task → Content
  snapshots : List Snapshot → Content

-- The value of "error": a text of the source, the text of an error, or the fields that are not valid.
pub data Message : Type 0 where
  says : Text → Message
  text_of : Error → Message
  invalid_fields : Message

-- `panicked` is what the router's Recoverer makes of a panic.
pub data Response : Type 0 where
  data_of : ℕ → Content → Response
  error_of : ℕ → Message → Response
  no_content : Response
  panicked : Response

abbrev pub Handler : Type 0
Handler = World → Response × World

unfoldable pub map_repo_error : Error → ℕ × Message
map_repo_error Error.not_found = (404, Message.says (codes "resource not found"))
map_repo_error Error.no_ips_available =
    (409, Message.says (codes "no free ip addresses in network pool"))
map_repo_error Error.invalid_state_transition =
    (400, Message.text_of Error.invalid_state_transition)
map_repo_error Error.invalid_instance_action = (400, Message.text_of Error.invalid_instance_action)
map_repo_error Error.stats_fetcher_not_configured =
    (503, Message.text_of Error.stats_fetcher_not_configured)
map_repo_error Error.stats_not_in_cache = (503, Message.text_of Error.stats_not_in_cache)
map_repo_error Error.stats_stale = (503, Message.text_of Error.stats_stale)
map_repo_error Error.volume_in_use = (409, Message.text_of Error.volume_in_use)
map_repo_error Error.volume_name_conflict = (409, Message.text_of Error.volume_name_conflict)
map_repo_error Error.instance_has_attached_volumes =
    (409, Message.text_of Error.instance_has_attached_volumes)
map_repo_error Error.instance_not_running = (400, Message.text_of Error.instance_not_running)
map_repo_error Error.volume_not_available = (400, Message.text_of Error.volume_not_available)
map_repo_error Error.volume_not_attached_to_instance =
    (400, Message.text_of Error.volume_not_attached_to_instance)
map_repo_error Error.instance_busy_snapshotting =
    (409, Message.text_of Error.instance_busy_snapshotting)
map_repo_error Error.snapshot_not_ready = (409, Message.text_of Error.snapshot_not_ready)
map_repo_error Error.snapshot_state_conflict = (409, Message.text_of Error.snapshot_state_conflict)
map_repo_error Error.snapshot_name_conflict = (409, Message.text_of Error.snapshot_name_conflict)
map_repo_error Error.no_floating_ips_available =
    (409, Message.says (codes "no floating ips available in pool"))
map_repo_error Error.floating_ip_associate_preconditions =
    (400, Message.text_of Error.floating_ip_associate_preconditions)
map_repo_error _ = (500, Message.says (codes "internal server error"))

-- `status, msg := mapRepoError(err); writeError(w, status, msg)`
unfoldable pub plain_error : Error → Response
unfolding map_repo_error
plain_error e = let (status, message) = map_repo_error e in Response.error_of status message

-- The same, with the text of the error where the status is 500.
unfoldable pub full_error : Error → Response
unfolding map_repo_error
full_error e =
    let (status, message) = map_repo_error e in
    Response.error_of status (if status == 500 then Message.text_of e else message)

abbrev pub fixed_error : ℕ → Text → Error → Response
fixed_error status message e = Response.error_of status (Message.says message)

abbrev pub text_error : ℕ → Error → Response
text_error status e = Response.error_of status (Message.text_of e)

abbrev pub answered :
    {A : Type 0} → (Error → Response) → (A → Response) → Result A × World → Response × World
answered on_err on_ok (ok a, w) = (on_ok a, w)
answered on_err on_ok (err e, w) = (on_err e, w)

-- A handler answers with what the service gives.
unfoldable pub respond : {A : Type 0} → (Error → Response) → (A → Response) → Exec A → Handler
respond on_err on_ok m w = answered on_err on_ok (m w)

abbrev pub refuse : Response → Handler
refuse r w = (r, w)

abbrev pub accepted_response : Task → Response
accepted_response t = Response.data_of 202 (Content.accepted t)

abbrev pub no_content_response : Done → Response
no_content_response d = Response.no_content
