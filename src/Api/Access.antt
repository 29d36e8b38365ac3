-- ===== src/Api/Access.antt =====
-- Who may do what: internal/httpapi/middleware.go and `requireProjectAccess` in handlers_projects.go.
use casper_cloud.Prelude.{
  ◌==◌, Bool, Option, none, some, [], ◌∷◌, Text, codes, eq_text, is_empty, to_lower, trim_space,
  if◌then◌else◌,
}
use casper_cloud.Data.{Uuid, uuid_nil, Seconds, Error}
use casper_cloud.Exec.{Result, ok, err, World}
use casper_cloud.Repository.Statement.{Done}
use casper_cloud.Service.Accounts.{Auth, Claims, ensure_project_access}
use casper_cloud.Api.Responses.{Response, Message, Handler, refuse}

-- What the middleware stores in the request's context: the user, and the project of the token.
pub record Identity : Type 0 where
  pub user : Uuid
  pub active_project : Option Uuid

-- A step that answers itself, or lets the request pass.
pub data Passage (A : Type 0) : Type 0 where
  stop : Response → Passage A
  go : A → Passage A

abbrev pub unauthorized : Text → {A : Type 0} → Passage A
unauthorized s = Passage.stop (Response.error_of 401 (Message.says s))

-- The text before the first space, and the text behind it.
unfoldable pub split_space : Text → Option (Text × Text)
split_space [] = none
split_space (c ∷ s) =
    let rest = split_space s in
    if c == 32 then some ([], s) else elim rest [ none ↦ none | some x ↦ some (c ∷ x.0, x.1) ]

-- `strings.EqualFold(s, "Bearer")`: no letter of the word folds to one outside ASCII.
abbrev is_bearer : Text → Bool
is_bearer s = eq_text (to_lower s) (codes "bearer")

-- `strings.SplitN(header, " ", 2)`, and the text of the token.
abbrev pub token_of_parts : Option (Text × Text) → Option Text
token_of_parts none = none
token_of_parts (some (scheme, token)) = if is_bearer scheme then some token else none

-- `strings.TrimSpace(claims.ActiveProjectID) != ""`
abbrev pub identity_of : Auth → Uuid → Text → Passage Identity
identity_of a user scope =
    if is_empty (trim_space scope)
    then Passage.go (record { user = user; active_project = none })
    else elim (a.parse_uuid scope) [
      | none ↦ unauthorized (codes "invalid active_project_id in token")
      | some p ↦ Passage.go (record { user = user; active_project = some p })
    ]

abbrev pub identify : Auth → Option Claims → Passage Identity
identify a none = unauthorized (codes "invalid token")
identify a (some c) = elim (a.parse_uuid c.user_id) [
  | none ↦ unauthorized (codes "invalid token user")
  | some user ↦ identity_of a user c.active_project_id
]

abbrev pub verify_token : Auth → Seconds → Option Text → Passage Identity
verify_token a now none = unauthorized (codes "invalid authorization header")
verify_token a now (some token) = identify a (a.verify now token)

unfoldable pub auth_middleware : Auth → Seconds → Text → Passage Identity
unfolding split_space eq_text to_lower trim_space
auth_middleware a now header =
    if is_empty header
    then unauthorized (codes "missing authorization header")
    else verify_token a now (token_of_parts (split_space header))

abbrev forbidden : Text → Passage Uuid
forbidden s = Passage.stop (Response.error_of 403 (Message.says s))

-- The project of the token against that of the path.
abbrev pub scope_matches : Option Uuid → Uuid → Passage Uuid
scope_matches none p = forbidden (
    codes
      "token is not scoped to a project; use POST /v1/auth/switch-project or login with project_id")
scope_matches (some q) p =
    if q == uuid_nil
    then forbidden (
        codes
          "token is not scoped to a project; use POST /v1/auth/switch-project or login with project_id")
    else if q == p
    then Passage.go p
    else forbidden (codes "token project scope does not match this path")

unfoldable pub project_token_matches_url : Auth → Identity → Text → Passage Uuid
project_token_matches_url a who path = elim (a.parse_uuid path) [
  | none ↦ Passage.stop (Response.error_of 400 (Message.says (codes "invalid project id")))
  | some p ↦ scope_matches who.active_project p
]

abbrev pub access_error : Error → Response
access_error Error.not_found = Response.error_of 403 (Message.says (codes "project not accessible"))
access_error e = Response.error_of 500 (Message.says (codes "could not verify project access"))

abbrev pub if_member : Uuid → (Uuid → Handler) → Result Done × World → Response × World
if_member p k (ok tt, w) = k p w
if_member p k (err e, w) = (access_error e, w)

-- Behind the middleware the context has a user.
unfoldable pub require_project_access : Auth → Identity → Text → (Uuid → Handler) → Handler
require_project_access a who path k = elim (a.parse_uuid path) [
  | none ↦ refuse (Response.error_of 400 (Message.says (codes "invalid project id")))
  | some p ↦ λ w. if_member p k (ensure_project_access who.user p w)
]
