-- ===== src/Service/Accounts.antt =====
-- internal/service/auth_service.go and project_service.go, with the claims of internal/auth/jwt.go. The
-- packages for passwords and tokens are parameters.
use casper_cloud.Prelude.{◌==◌, ◌+◌, Bool, Option, none, some, List, [], Text, if◌then◌else◌}
use casper_cloud.Data.{
  Uuid, uuid_nil, Seconds, Error, not_found, invalid_credentials, not_a_member, host_failed, User,
  Project, Network,
}
use casper_cloud.Exec.{Result, ok, err, Exec, World, pure, raise, or_raise, db_call, ◌>>=◌, ◌>>◌}
use casper_cloud.Repository.Statement.{Done}
use casper_cloud.Repository.Accounts.{
  create_user, get_user_by_email, get_user_by_id, user_has_project_access, list_projects_for_user,
}
use casper_cloud.Repository.Networks.{Net, list_networks_for_project}
use casper_cloud.Repository.Create.{create_project}

-- `auth.Claims`: the empty text is the project of a token with no scope.
pub record Claims : Type 0 where
  pub user_id : Text
  pub email : Text
  pub active_project_id : Text
  pub issued_at : Seconds
  pub expires_at : Seconds

-- bcrypt, the signed tokens and the texts of identifiers. `verify` is `ParseWithClaims` at a time.
pub record Auth : Type 0 where
  pub hash_password : Text → Option Text
  pub check_password : Text → Text → Bool
  pub sign : Claims → Option Text
  pub verify : Seconds → Text → Option Claims
  pub uuid_text : Uuid → Text
  pub parse_uuid : Text → Option Uuid

-- 24 hours
abbrev pub token_lifetime : Seconds
token_lifetime = 86400

pub record AuthResponse : Type 0 where
  pub token : Text
  pub user : User
  pub active_project_id : Option Uuid

pub record LoginInput : Type 0 where
  pub email : Text
  pub password : Text
  pub project_id : Option Uuid

-- What `ListNetworks` and `CreateProject` are configured with.
pub record NetworkDefaults : Type 0 where
  pub cidr : Text
  pub gateway : Text
  pub bridge : Text

-- `activeProject != nil && *activeProject != uuid.Nil`
abbrev pub scope_text : Auth → Option Uuid → Text
scope_text a none = []
scope_text a (some p) = if p == uuid_nil then [] else a.uuid_text p

abbrev pub claims_for : Auth → Seconds → Uuid → Text → Option Uuid → Claims
claims_for a now user email scope = record {
  user_id = a.uuid_text user;
  email = email;
  active_project_id = scope_text a scope;
  issued_at = now;
  expires_at = now + token_lifetime;
}

abbrev pub rename : Error → Error
rename Error.not_found = invalid_credentials
rename e = e

abbrev pub renamed : {A : Type 0} → Result A × World → Result A × World
renamed (ok x, w) = (ok x, w)
renamed (err e, w) = (err (rename e), w)

-- `ErrNotFound` becomes "invalid credentials".
abbrev pub known_user : Exec User → Exec User
known_user m w = renamed (m w)

-- `in.ProjectID != nil && *in.ProjectID != uuid.Nil`
abbrev pub wanted_scope : Option Uuid → Option Uuid
wanted_scope none = none
wanted_scope (some p) = if p == uuid_nil then none else some p

abbrev pub check_member : Uuid → Uuid → Exec Done
check_member u p = db_call (user_has_project_access u p) >>= λ member.
    if member then pure tt else raise not_a_member

abbrev pub check_scope : Uuid → Option Uuid → Exec Done
check_scope u none = pure tt
check_scope u (some p) = check_member u p

module _ (a : Auth) (now : Seconds) where
  unfoldable pub generate : Uuid → Text → Option Uuid → Exec Text
  generate user email scope = or_raise (a.sign (claims_for a now user email scope)) host_failed

  unfoldable pub register : Text → Text → Exec AuthResponse
  unfolding generate
  register email password = do
    hash ← or_raise (a.hash_password password) host_failed
    user ← db_call (create_user email hash)
    token ← generate user.id user.email none
    pure (record { token = token; user = user; active_project_id = none })

  unfoldable pub login : LoginInput → Exec AuthResponse
  unfolding generate
  login input = do
    user ← known_user (db_call (get_user_by_email input.email))
    (if a.check_password user.password_hash input.password
        then pure tt
        else raise invalid_credentials)
    check_scope user.id (wanted_scope input.project_id)
    token ← generate user.id user.email (wanted_scope input.project_id)
    pure (record { token = token; user = user; active_project_id = wanted_scope input.project_id })

  unfoldable pub switch_project : Uuid → Uuid → Exec AuthResponse
  unfolding generate
  switch_project u p = do
    check_member u p
    user ← db_call (get_user_by_id u)
    token ← generate user.id user.email (some p)
    pure (record { token = token; user = user; active_project_id = some p })

unfoldable pub ensure_project_access : Uuid → Uuid → Exec Done
ensure_project_access u p =
    db_call (user_has_project_access u p) >>= λ member. if member then pure tt else raise not_found

unfoldable pub create : Net → NetworkDefaults → Uuid → Text → Exec Project
create net s u name = db_call (create_project net u name s.cidr s.gateway s.bridge)

unfoldable pub list_projects : Uuid → Exec (List Project)
list_projects u = db_call (list_projects_for_user u)

unfoldable pub list_networks : (List Network → List Network) → Uuid → Exec (List Network)
list_networks by_name p = db_call (list_networks_for_project by_name p)
