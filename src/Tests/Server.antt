-- ===== src/Tests/Server.antt =====
-- A server: tokens are the claims themselves, an identifier is written between two letters, and an
-- address with its mask, as PostgreSQL shows it.
use casper_cloud.Prelude.{
  ◌≡◌, refl, subst, some-injective, ◌==◌, ◌<◌, ltb, Bool, true, false, Option, none, some, [], ◌∷◌,
  ◌++◌, Text, codes, is_empty, trim_space, trim, trim_left, is_space, arith, if◌then◌else◌,
}
use casper_cloud.Data.{Uuid, Inet, Seconds}
use casper_cloud.CloudInit.{dotted}
use casper_cloud.Repository.Hosts.{Address, v4}
use casper_cloud.Repository.Networks.{Net}
use casper_cloud.Service.Accounts.{Auth, Claims}
use casper_cloud.Api.Server.{Server}
use casper_cloud.Api.Tokens.{AuthLaws}
use casper_cloud.Tests.Codec.{put, take_field, take_field-put, then_field}

abbrev pub uuid_text : Uuid → Text
uuid_text i = 117 ∷ i ∷ 117 ∷ []

abbrev pub parse_uuid : Text → Option Uuid
parse_uuid [] = none
parse_uuid (a ∷ []) = none
parse_uuid (a ∷ i ∷ []) = none
parse_uuid (a ∷ i ∷ b ∷ []) = some i
parse_uuid (a ∷ i ∷ b ∷ c ∷ s) = none

abbrev pub sign : Claims → Text
sign c = put c.user_id (put c.email (put c.active_project_id (c.issued_at ∷ c.expires_at ∷ [])))

abbrev pub with_times : Seconds → Text → Text → Text → Text → Option Claims
with_times now user email scope [] = none
with_times now user email scope (i ∷ []) = none
with_times now user email scope (i ∷ e ∷ s) =
    if ltb now e
    then some (record {
      user_id = user;
      email = email;
      active_project_id = scope;
      issued_at = i;
      expires_at = e;
    })
    else none

unfoldable pub verify : Seconds → Text → Option Claims
unfolding take_field
verify now s = then_field (take_field s) λ user s₁.
    then_field (take_field s₁)
      λ email s₂. then_field (take_field s₂) λ scope s₃. with_times now user email scope s₃

verify-sign : (c : Claims) (now : Seconds) → now < c.expires_at → verify now (sign c) ≡ some c
unfolding verify
verify-sign c now h =
    let k : ltb now c.expires_at ≡ true = ground arith in simp (take_field-put, k) refl

abbrev pub auth : Auth
auth = record {
  hash_password = λ s. some s;
  check_password = λ hash s. true;
  sign = λ c. some (sign c);
  verify = verify;
  uuid_text = uuid_text;
  parse_uuid = parse_uuid;
}

filled : (i : Uuid) → is_empty (trim_space (uuid_text i)) ≡ false
unfolding trim_space trim trim_left is_space
filled i = refl

pub auth-AuthLaws : AuthLaws auth
auth-AuthLaws = record {
  verify-sign = λ c token now signed soon.
      subst (λ t. verify now t ≡ some c) (some-injective _ _ signed) (verify-sign c now soon);
  parse-uuid_text = λ i. refl;
  uuid_text_filled = filled;
}

-- netip reads no text with a slash as an address.
abbrev has_slash : Text → Bool
has_slash [] = false
has_slash (c ∷ s) = if c == 47 then true else has_slash s

has_slash-mask : (s t : Text) → has_slash (s ++ 47 ∷ t) ≡ true
has_slash-mask [] t = refl
has_slash-mask (c ∷ s) t = ground (arith, has_slash-mask s t)

unfoldable pub parse_addr : Text → Option Address
parse_addr s = if has_slash s then none else some (v4 1)

abbrev pub net : Net
net = record {
  parse_prefix = λ s. some (record { address = v4 3232266752; bits = 24 });
  parse_addr = parse_addr;
  shown = λ a. dotted a ++ codes "/32";
  as_cidr = λ s. some s;
  as_inet = λ s. some s;
}

pub unread : (a : Inet) → net.parse_addr (net.shown a) ≡ none
unfolding parse_addr
unread a = rw (has_slash-mask (dotted a) (51 ∷ 50 ∷ [])) refl

abbrev pub server : Server
server = record {
  auth = auth;
  tags = record { is_email = λ s. true; is_uuid = λ s. true };
  net = net;
  defaults = record {
    cidr = codes "192.168.122.0/24";
    gateway = codes "192.168.122.1";
    bridge = codes "virbr0";
  };
  fetch = none;
  by_name = λ rows. rows;
  now = 100;
  new_id = 10;
  mac = codes "52:54:00:00:00:01";
  target = some (codes "vdb");
  locked_slots = λ r. false;
  locked_ips = λ i. false;
}
