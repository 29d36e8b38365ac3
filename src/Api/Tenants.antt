-- ===== src/Api/Tenants.antt =====
-- Tenant isolation of the whole API.
use casper_cloud.Prelude.{
  ◌≡◌, ◌≢◌, refl, ap, arith, true, Option, codes, none, some, Text, Bool-cases, inl, inr, exists,
  if◌then◌else◌,
}
use casper_cloud.Data.{Uuid, Db}
use casper_cloud.Exec.{World, fails, later, db_call, raise, pure, ◌>>=◌}
use casper_cloud.Repository.Sound.{Sound}
use casper_cloud.Repository.Accounts.{is_membership, user_has_project_access}
use casper_cloud.Service.Accounts.{ensure_project_access}
use casper_cloud.Service.Isolation.{WellFormed, SameRows, isolated_world}
use casper_cloud.Api.Responses.{Response, Message}
use casper_cloud.Api.Access.{
  Passage, Identity, auth_middleware, project_token_matches_url, scope_matches,
  require_project_access,
}
use casper_cloud.Api.Server.{Server}
use casper_cloud.Api.Scope.{Holds}
use casper_cloud.Api.Isolation.{handle_project_route-Sound}
use casper_cloud.Api.Accounts.{
  Holds-handle_register, Holds-handle_login, Holds-handle_switch_project,
  handle_create_project-Sound, NewProject, Holds-handle_list_projects,
}
use casper_cloud.Api.Router.{
  ProjectRoute, Route, behind_scope, behind_auth, authenticated, handle_project_route, serve,
}

-- The project that a user may act in through a token: the token is scoped to that of the path, and the
-- user is a member.
abbrev pub member_scope : Db → Identity → Passage Uuid → Option Uuid
member_scope d who (Passage.stop r) = none
member_scope d who (Passage.go p) =
    if exists (is_membership p who.user) d.memberships then some p else none

abbrev pub token_scope : Server → Text → Db → Passage Identity → Option Uuid
token_scope s path d (Passage.stop r) = none
token_scope s path d (Passage.go who) =
    member_scope d who (project_token_matches_url s.auth who path)

-- The project that a request may act in.
abbrev pub admitted : Server → Text → Route → Db → Option Uuid
admitted s header (Route.in_project path route) d =
    token_scope s path d (auth_middleware s.auth s.now header)
admitted s header _ d = none

module _ (s : Server) (who : Identity) (path : Text) where
  scope_matches-path : (o : Option Uuid) (x p : Uuid) → scope_matches o x ≡ Passage.go p → x ≡ p
  scope_matches-path none x p e = ground arith
  scope_matches-path (some y) x p e = ground arith

  token-path :
      (p : Uuid)
      → project_token_matches_url s.auth who path ≡ Passage.go p
      → s.auth.parse_uuid path ≡ some p
  unfolding project_token_matches_url
  token-path p e = go (s.auth.parse_uuid path) e
    where
      go :
          (o : Option Uuid)
          → elim o [
            | none ↦
                Passage.stop (Response.error_of 400 (Message.says (codes "invalid project id")))
            | some x ↦ scope_matches who.active_project x
          ]
            ≡ Passage.go p
          → o ≡ some p
      go none e' = ground arith
      go (some x) e' = ap some (scope_matches-path who.active_project x p e')

module _ (own : Uuid → Uuid) (q : Uuid) (d₀ : Db) (s : Server) (path : Text)
    (route : ProjectRoute) where
  -- Behind the token's scope only a member gets to the handler.
  member-Sound :
      (who : Identity) (p : Uuid) (w : World)
      → s.auth.parse_uuid path ≡ some p
      → (if exists (is_membership p who.user) w.db.memberships then some p else none) ≢ some q
      → (exists (is_membership p who.user) w.db.memberships ≡ true → own s.new_id ≡ p)
      → Sound own q d₀ w.db
      → Sound own q d₀
          (require_project_access s.auth who path (λ r. handle_project_route s r route) w).1.db
  unfolding require_project_access ensure_project_access user_has_project_access db_call ◌>>=◌ raise
      pure
  member-Sound who p w e other mine h =
      rw (e, require_project_access)
        (elim (Bool-cases (fails w.faults)) [
          | inl t ↦ rw t h
          | inr t ↦ elim (Bool-cases (exists (is_membership p who.user) w.db.memberships)) [
            | inl m ↦
                rw (t, m)
                  (handle_project_route-Sound own p q (λ same. other (rw m (ap some same))) d₀ s
                    route (mine m) (record w { faults = later w.faults }) h)
            | inr m ↦ rw (t, m) h
          ]
        ])

  scope-Sound :
      (who : Identity) (pass : Passage Uuid) (w : World)
      → project_token_matches_url s.auth who path ≡ pass
      → member_scope w.db who pass ≢ some q
      → ((p : Uuid) → member_scope w.db who pass ≡ some p → own s.new_id ≡ p)
      → Sound own q d₀ w.db
      → Sound own q d₀ (behind_scope s who path route pass w).1.db
  scope-Sound who (Passage.stop r) w e other mine h = h
  scope-Sound who (Passage.go p) w e other mine h =
      member-Sound who p w (token-path s who path p e) other (λ m. mine p (rw m refl)) h

  auth-Sound :
      (pass : Passage Identity) (w : World)
      → token_scope s path w.db pass ≢ some q
      → ((p : Uuid) → token_scope s path w.db pass ≡ some p → own s.new_id ≡ p)
      → Sound own q d₀ w.db
      → Sound own q d₀ (authenticated s (Route.in_project path route) pass w).1.db
  auth-Sound (Passage.stop r) w other mine h = h
  auth-Sound (Passage.go who) w other mine h =
      scope-Sound who (project_token_matches_url s.auth who path) w refl other mine h

module _ (own : Uuid → Uuid) (q : Uuid) (d₀ : Db) (s : Server) where
  account-Sound :
      (route : Route) (pass : Passage Identity) (w : World)
      → ((who : Identity) → Holds (Sound own q d₀) (behind_auth s route who))
      → Sound own q d₀ w.db
      → Sound own q d₀ (authenticated s route pass w).1.db
  account-Sound route (Passage.stop r) w k h = h
  account-Sound route (Passage.go who) w k h = (k who).at w h

  serve-Sound :
      (header : Text) (route : Route) (w : World)
      → admitted s header route w.db ≢ some q
      → ((p : Uuid) → admitted s header route w.db ≡ some p → own s.new_id ≡ p)
      → NewProject own q w.db
      → Sound own q d₀ w.db
      → Sound own q d₀ (serve s header route w).1.db
  unfolding serve
  serve-Sound header Route.healthz w other mine new h = h
  serve-Sound header (Route.register body) w other mine new h =
      (Holds-handle_register own q d₀ s body).at w h
  serve-Sound header (Route.login body) w other mine new h =
      (Holds-handle_login own q d₀ s body).at w h
  serve-Sound header (Route.switch_project body) w other mine new h =
      account-Sound (Route.switch_project body) (auth_middleware s.auth s.now header) w
        (λ who. Holds-handle_switch_project own q d₀ s who body) h
  serve-Sound header (Route.create_project body) w other mine new h =
      create_project-Sound (auth_middleware s.auth s.now header)
    where
      create_project-Sound :
          (pass : Passage Identity)
          → Sound own q d₀ (authenticated s (Route.create_project body) pass w).1.db
      create_project-Sound (Passage.stop r) = h
      create_project-Sound (Passage.go who) =
          handle_create_project-Sound own q d₀ s who body w new h
  serve-Sound header Route.list_projects w other mine new h =
      account-Sound Route.list_projects (auth_middleware s.auth s.now header) w
        (λ who. Holds-handle_list_projects own q d₀ s who) h
  serve-Sound header (Route.in_project path route) w other mine new h =
      auth-Sound own q d₀ s path route (auth_middleware s.auth s.now header) w other mine h

-- A request of any route, header, path and body, whichever calls of its handler fail: from well-formed
-- tables, where a new instance id is one of the project that the request is admitted to, and the ids
-- that the database gives next are of a new project and its network, it leaves the tables well formed;
-- and a project's instances, tasks, snapshots, volumes, floating IPs, networks, slots, allocations,
-- images and memberships, and its own row, are exactly what they were, unless the request's token is
-- scoped to it, and to the project of the path, and the user is a member of it.
pub serve_isolated :
    (own : Uuid → Uuid) (q : Uuid) (s : Server) (header : Text) (route : Route) (w : World)
    → WellFormed own w.db
    → NewProject own q w.db
    → ((p : Uuid) → admitted s header route w.db ≡ some p → own s.new_id ≡ p)
    → admitted s header route w.db ≢ some q
    → WellFormed own (serve s header route w).1.db × SameRows q w.db (serve s header route w).1.db
serve_isolated own q s header route w v new mine other =
    isolated_world own q w.db (serve s header route w).1.db
      (λ h. serve-Sound own q w.db s header route w other mine new h) v
