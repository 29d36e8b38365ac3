-- ===== src/Api/Server.antt =====
-- The server's parts, what the outside answers while a request is handled, and the steps that the
-- handlers share.
use casper_cloud.Prelude.{
  ℤ, pos, negsuc, ℕ, Bool, Option, none, some, List, Text, is_empty, if◌then◌else◌,
}
use casper_cloud.Data.{Uuid, Seconds, Network, IpSlot}
use casper_cloud.Repository.Networks.{Net}
use casper_cloud.Service.Accounts.{Auth, NetworkDefaults}
use casper_cloud.Service.Async.{Fetched}
use casper_cloud.Api.Bodies.{Tags}
use casper_cloud.Api.Responses.{Response, Message, Handler, refuse}

-- `new_id` is what `uuid.New()` gives, and `mac` what `macForInstance` makes of it; `target` is what
-- libvirt answers of a free disk target; `locked_…` are the rows that other transactions hold.
pub record Server : Type 0 where
  pub auth : Auth
  pub tags : Tags
  pub net : Net
  pub defaults : NetworkDefaults
  pub fetch : Option (Uuid → Fetched)
  pub by_name : List Network → List Network
  pub now : Seconds
  pub new_id : Uuid
  pub mac : Text
  pub target : Option Text
  pub locked_slots : IpSlot → Bool
  pub locked_ips : Uuid → Bool

-- `uuid.Parse` of a text, with a status of 400 where it fails.
unfoldable pub with_id : Auth → Text → Text → (Uuid → Handler) → Handler
with_id a s message k = elim (a.parse_uuid s) [
  | none ↦ refuse (Response.error_of 400 (Message.says message))
  | some i ↦ k i
]

-- `uuid.MustParse`
unfoldable pub must_parse : Auth → Text → (Uuid → Handler) → Handler
must_parse a s k = elim (a.parse_uuid s) [ none ↦ refuse Response.panicked | some i ↦ k i ]

-- `if text != "" { … uuid.Parse … }`
unfoldable pub optional_id : Auth → Text → Text → (Option Uuid → Handler) → Handler
unfolding with_id
optional_id a s message k = if is_empty s then k none else with_id a s message (λ i. k (some i))

-- A size that has passed the validator is not negative.
abbrev pub size_of : ℤ → ℕ
size_of (pos n) = n
size_of (negsuc n) = 0
