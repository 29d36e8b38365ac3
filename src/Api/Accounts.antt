-- ===== src/Api/Accounts.antt =====
-- The handlers outside projects leave the rows of a project as they are.
use casper_cloud.Prelude.{
  ◌≡◌, ◌≢◌, suc, Bool-cases, inl, inr, Option, none, some, Text, arith, trim_space, is_empty,
}
use casper_cloud.Data.{invalid_credentials, Uuid, Error, User, Project, Db}
use casper_cloud.Exec.{World, Exec, Result, ok, err, fails, later, commit, db_call}
use casper_cloud.Exec.Keeps.{
  Keeps, Kept, Keeps-db_call, Keeps-bind, Keeps-raise, Keeps-or_raise, Keeps-pure, Keeps-if,
}
use casper_cloud.Repository.Kept.{Kept-one_row}
use casper_cloud.Repository.Sound.{Sound}
use casper_cloud.Repository.Accounts.{
  create_user, get_user_by_email, get_user_by_id, user_has_project_access, list_projects_for_user,
}
use casper_cloud.Repository.Create.{create_project}
use casper_cloud.Repository.Sound.Projects.{create_project-Sound}
use casper_cloud.Service.Accounts
use casper_cloud.Service.Accounts.{
  Auth, LoginInput, NetworkDefaults, generate, known_user, renamed, check_member, check_scope,
  wanted_scope,
}
use casper_cloud.Api.Access.{Identity}
use casper_cloud.Api.Responses.{Response, respond, answered}
use casper_cloud.Api.Bodies.{Decoded, CreateProjectRequest, project_is_valid}
use casper_cloud.Api.Server.{Server}
use casper_cloud.Api.Scope.{
  Holds, Holds-respond, Holds-with_body, Holds-must_parse, Holds-if, with_body-after,
}
use casper_cloud.Api.Router.{
  handle_register, handle_login, handle_switch_project, handle_create_project, handle_list_projects,
}

-- The id that the database gives next, to a new project, is not `q`, and the id that it gives then, to
-- the network of that project, is one of that project.
abbrev pub NewProject : (Uuid → Uuid) → Uuid → Db → Type 0
NewProject own q d = (d.next_id ≢ q) × (own (suc d.next_id) ≡ d.next_id)

module _ (own : Uuid → Uuid) (q : Uuid) (d₀ : Db) where
  Keeps-create_user :
      (email hash : Text) → Keeps (Sound own q d₀) (db_call (create_user email hash))
  unfolding create_user
  Keeps-create_user email hash = Keeps-db_call _ (λ d h. ground arith)

  Keeps-get_user_by_email :
      (email : Text) → Keeps (Sound own q d₀) (db_call (get_user_by_email email))
  unfolding get_user_by_email
  Keeps-get_user_by_email email = Keeps-db_call _ (λ d h. Kept-one_row (Sound own q d₀) _ _ d h)

  Keeps-get_user_by_id : (u : Uuid) → Keeps (Sound own q d₀) (db_call (get_user_by_id u))
  unfolding get_user_by_id
  Keeps-get_user_by_id u = Keeps-db_call _ (λ d h. Kept-one_row (Sound own q d₀) _ _ d h)

  Keeps-member : (u p : Uuid) → Keeps (Sound own q d₀) (db_call (user_has_project_access u p))
  unfolding user_has_project_access
  Keeps-member u p = Keeps-db_call _ (λ d h. h)

  Keeps-known_user :
      (m : Exec User) → Keeps (Sound own q d₀) m → Keeps (Sound own q d₀) (known_user m)
  Keeps-known_user m k = record { at = λ w h. go (m w) (k.at w h) }
    where
      go : (r : Result User × World) → Sound own q d₀ r.1.db → Sound own q d₀ (renamed r).1.db
      go (ok a, w) h = h
      go (err e, w) h = h

  Keeps-check_member : (u p : Uuid) → Keeps (Sound own q d₀) (check_member u p)
  Keeps-check_member u p =
      Keeps-bind _ _ (Keeps-member u p)
        (λ b. Keeps-if b _ _ (λ _. Keeps-pure tt) (λ _. Keeps-raise _))

  Keeps-check_scope : (u : Uuid) (o : Option Uuid) → Keeps (Sound own q d₀) (check_scope u o)
  Keeps-check_scope u none = Keeps-pure tt
  Keeps-check_scope u (some p) = Keeps-check_member u p

  module _ (s : Server) where
    Keeps-generate :
        (u : Uuid) (email : Text) (o : Option Uuid)
        → Keeps (Sound own q d₀) (generate s.auth s.now u email o)
    unfolding generate
    Keeps-generate u email o = Keeps-or_raise _ _

    Keeps-register :
        (email password : Text)
        → Keeps (Sound own q d₀) (Accounts.register s.auth s.now email password)
    unfolding Accounts.register
    Keeps-register email password = Keeps-bind _ _ (Keeps-or_raise _ _) λ hash.
        Keeps-bind _ _ (Keeps-create_user email hash)
          λ user. Keeps-bind _ _ (Keeps-generate user.id user.email none) λ token. Keeps-pure _

    Keeps-login : (input : LoginInput) → Keeps (Sound own q d₀) (Accounts.login s.auth s.now input)
    unfolding Accounts.login
    Keeps-login input =
        Keeps-bind _ _ (Keeps-known_user _ (Keeps-get_user_by_email input.email)) λ user.
          Keeps-bind _ _
            (Keeps-if (s.auth.check_password user.password_hash input.password) _ _
              (λ _. Keeps-pure tt) (λ _. Keeps-raise invalid_credentials))
            λ _. Keeps-bind _ _ (Keeps-check_scope user.id (wanted_scope input.project_id)) λ _.
              Keeps-bind _ _ (Keeps-generate user.id user.email (wanted_scope input.project_id))
                λ token. Keeps-pure _

    Keeps-switch_project :
        (u p : Uuid) → Keeps (Sound own q d₀) (Accounts.switch_project s.auth s.now u p)
    unfolding Accounts.switch_project
    Keeps-switch_project u p = Keeps-bind _ _ (Keeps-check_member u p) λ _.
        Keeps-bind _ _ (Keeps-get_user_by_id u)
          λ user. Keeps-bind _ _ (Keeps-generate user.id user.email (some p)) λ token. Keeps-pure _

    Keeps-list_projects : (u : Uuid) → Keeps (Sound own q d₀) (Accounts.list_projects u)
    unfolding Accounts.list_projects list_projects_for_user
    Keeps-list_projects u = Keeps-db_call _ (λ d h. h)

    pub Holds-handle_register : (body : _) → Holds (Sound own q d₀) (handle_register s body)
    unfolding handle_register
    Holds-handle_register body =
        Holds-with_body _ body _
          λ r _. Holds-respond _ _ _ (Keeps-register (trim_space r.email) r.password)

    pub Holds-handle_login : (body : _) → Holds (Sound own q d₀) (handle_login s body)
    unfolding handle_login
    Holds-handle_login body = Holds-with_body _ body _ λ r _.
        Holds-if (is_empty (trim_space r.project_id)) _ _ (Holds-respond _ _ _ (Keeps-login _))
          (Holds-must_parse _ r.project_id _ λ p. Holds-respond _ _ _ (Keeps-login _))

    pub Holds-handle_switch_project :
        (who : Identity) (body : _) → Holds (Sound own q d₀) (handle_switch_project s who body)
    unfolding handle_switch_project
    Holds-handle_switch_project who body = Holds-with_body _ body _ λ r _.
        Holds-must_parse _ r.project_id _ λ p. Holds-respond _ _ _ (Keeps-switch_project who.user p)

    create_after :
        (u : Uuid) (name : Text) (f : Error → Response) (g : Project → Response) (w : World)
        → NewProject own q w.db
        → Sound own q d₀ w.db
        → Sound own q d₀ (respond f g (Accounts.create s.net s.defaults u name) w).1.db
    unfolding Accounts.create respond db_call
    create_after u name f g w new h = elim (Bool-cases (fails w.faults)) [
      | inl t ↦ rw t h
      | inr t ↦ rw t (
          go (create_project s.net u name s.defaults.cidr s.defaults.gateway s.defaults.bridge w.db)
            (create_project-Sound own q s.net u name s.defaults.cidr s.defaults.gateway
              s.defaults.bridge d₀ w.db h new.0 new.1))
    ]
      where
        go :
            (r : Result (Project × Db))
            → Kept (Sound own q d₀) r
            → Sound own q d₀ (answered f g (commit r (record w { faults = later w.faults }))).1.db
        go (ok (a, d)) k = k
        go (err e) k = h

    pub handle_create_project-Sound :
        (who : Identity) (body : Decoded CreateProjectRequest) (w : World)
        → NewProject own q w.db
        → Sound own q d₀ w.db
        → Sound own q d₀ (handle_create_project s who body w).1.db
    unfolding handle_create_project
    handle_create_project-Sound who body w new h =
        with_body-after (Sound own q d₀) project_is_valid body _ w h
          (λ r. create_after who.user r.name _ _ w new h)

    pub Holds-handle_list_projects :
        (who : Identity) → Holds (Sound own q d₀) (handle_list_projects s who)
    unfolding handle_list_projects
    Holds-handle_list_projects who = Holds-respond _ _ _ (Keeps-list_projects who.user)
