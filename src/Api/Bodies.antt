-- ===== src/Api/Bodies.antt =====
-- The bodies of requests and what is valid: internal/apitypes, with the tags of their fields, and
-- internal/httpapi/validate.go and decode_error.go.
use casper_cloud.Prelude.{
  leb, not, ◌&&◌, ◌||◌, ℤ, pos, negsuc, ℕ, Bool, true, false, List, [], ◌∷◌, Text, codes, length,
  is_empty,
}
use casper_cloud.Api.Responses.{Response, Message, Handler, refuse}

-- What the JSON decoder makes of a body: no byte, no JSON of the type, an unknown field, or a value.
pub data Decoded (A : Type 0) : Type 0 where
  empty_body not_json unknown_field : Decoded A
  value : A → Decoded A

-- The validator's tags `email` and `uuid`.
pub record Tags : Type 0 where
  pub is_email : Text → Bool
  pub is_uuid : Text → Bool

-- `required,min=1,max=n`; the validator counts code points.
abbrev pub required_up_to : ℕ → Text → Bool
required_up_to n s = not (is_empty s) && leb (length s) n

abbrev each_up_to : ℕ → List Text → Bool
each_up_to n [] = true
each_up_to n (s ∷ ss) = leb (length s) n && each_up_to n ss

pub record RegisterRequest : Type 0 where
  pub email : Text
  pub password : Text

pub record LoginRequest : Type 0 where
  pub email : Text
  pub password : Text
  pub project_id : Text

pub record SwitchProjectRequest : Type 0 where
  pub project_id : Text

pub record CreateProjectRequest : Type 0 where
  pub name : Text

-- `imageRequest`
pub record ImageRequest : Type 0 where
  pub name : Text
  pub source_url : Text
  pub description : Text

pub record CreateVolumeRequest : Type 0 where
  pub name : Text
  pub size_gb : ℤ

pub record AssociateFloatingIpRequest : Type 0 where
  pub instance_id : Text

pub record InstanceActionRequest : Type 0 where
  pub action : Text

pub record CreateInstanceRequest : Type 0 where
  pub name : Text
  pub image_id : Text
  pub network_id : Text
  pub hostname : Text
  pub username : Text
  pub ssh_public_key : Text
  pub packages : List Text
  pub run_commands : List Text

pub record InstanceVolumeAttachRequest : Type 0 where
  pub volume_id : Text

pub record CreateSnapshotRequest : Type 0 where
  pub name : Text

-- `required,uuid`
abbrev pub required_uuid : Tags → Text → Bool
required_uuid t s = not (is_empty s) && t.is_uuid s

-- `omitempty,uuid`
abbrev pub optional_uuid : Tags → Text → Bool
optional_uuid t s = is_empty s || t.is_uuid s

abbrev pub size_is_valid : ℤ → Bool
size_is_valid (pos n) = leb 1 n && leb n 4096
size_is_valid (negsuc n) = false

module _ (t : Tags) where
  abbrev pub register_is_valid : RegisterRequest → Bool
  register_is_valid r =
      not (is_empty r.email)
      && t.is_email r.email
      && (leb 8 (length r.password) && required_up_to 128 r.password)

  abbrev pub login_is_valid : LoginRequest → Bool
  login_is_valid r =
      not (is_empty r.email)
      && t.is_email r.email
      && (not (is_empty r.password) && optional_uuid t r.project_id)

  abbrev pub switch_is_valid : SwitchProjectRequest → Bool
  switch_is_valid r = required_uuid t r.project_id

  abbrev pub associate_is_valid : AssociateFloatingIpRequest → Bool
  associate_is_valid r = required_uuid t r.instance_id

  abbrev pub attachment_is_valid : InstanceVolumeAttachRequest → Bool
  attachment_is_valid r = required_uuid t r.volume_id

  abbrev pub instance_is_valid : CreateInstanceRequest → Bool
  instance_is_valid r =
      required_uuid t r.image_id
      && optional_uuid t r.network_id
      && (required_up_to 128 r.name && required_up_to 253 r.hostname)
      && (required_up_to 32 r.username && required_up_to 8192 r.ssh_public_key)
      && (leb (length r.packages) 64 && each_up_to 128 r.packages)
      && (leb (length r.run_commands) 32 && each_up_to 2048 r.run_commands)

abbrev pub project_is_valid : CreateProjectRequest → Bool
project_is_valid r = required_up_to 128 r.name

abbrev pub image_is_valid : ImageRequest → Bool
image_is_valid r =
    required_up_to 256 r.name && required_up_to 2048 r.source_url && leb (length r.description) 4096

abbrev pub volume_is_valid : CreateVolumeRequest → Bool
volume_is_valid r = required_up_to 128 r.name && size_is_valid r.size_gb

abbrev pub action_is_valid : InstanceActionRequest → Bool
action_is_valid r = required_up_to 32 r.action

abbrev pub snapshot_is_valid : CreateSnapshotRequest → Bool
snapshot_is_valid r = required_up_to 128 r.name

abbrev bad_request : Text → Response
bad_request s = Response.error_of 400 (Message.says s)

-- `respondInvalidRequest`, for the errors of the decoder.
abbrev pub invalid_request : {A : Type 0} → Decoded A → Response
invalid_request Decoded.empty_body = bad_request (codes "empty request body")
invalid_request Decoded.not_json = bad_request (codes "invalid json")
invalid_request Decoded.unknown_field = bad_request (codes "invalid request body")
invalid_request (Decoded.value a) = Response.error_of 400 Message.invalid_fields

-- `if err := decodeAndValidate(r, &req); err != nil { respondInvalidRequest(w, err); return }`
unfoldable pub with_body : {A : Type 0} → (A → Bool) → Decoded A → (A → Handler) → Handler
with_body {A} valid (Decoded.value a) k = elim (valid a) [
  | true ↦ k a
  | false ↦ refuse (invalid_request {A = A} (Decoded.value a))
]
with_body {A} valid Decoded.empty_body k = refuse (invalid_request {A = A} (Decoded.empty_body))
with_body {A} valid Decoded.not_json k = refuse (invalid_request {A = A} (Decoded.not_json))
with_body {A} valid Decoded.unknown_field k =
    refuse (invalid_request {A = A} (Decoded.unknown_field))
