-- ===== src/Api/Tokens.antt =====
-- The tokens that the API gives are the ones that it lets pass.
use casper_cloud.Prelude.{
  subst, ◌≡◌, ◌∙◌, refl, ap, ◌==◌, ◌+◌, ◌<◌, Bool, true, false, Option, none, some, some-injective,
  ◌++◌, Text, codes, exists, is_empty, trim_space, eq_text, to_lower, arith, if◌then◌else◌,
  Bool-cases, inl, inr,
}
use casper_cloud.Data.{Uuid, uuid_nil, Seconds, host_failed, not_a_member, User}
use casper_cloud.Exec.{ok, World, db_call, pure, ◌>>=◌}
use casper_cloud.Exec.Success.{>>=-ok, pure-ok, or_raise-ok, db_call-ok, guard-ok}
use casper_cloud.Repository.Accounts.{is_membership, user_has_project_access}
use casper_cloud.Service.Accounts.{
  Auth, AuthResponse, Claims, LoginInput, claims_for, generate, login, check_scope, token_lifetime,
  wanted_scope, scope_text,
}
use casper_cloud.Api.Access.{
  Passage, unauthorized, auth_middleware, split_space, identify, identity_of, token_of_parts,
}

-- What the packages promise: a signed token is verified until it expires, with the claims that were
-- signed; an identifier's text is read back, and is not blank.
pub record AuthLaws (a : Auth) : Type 0 where
  pub verify-sign :
      (c : Claims) (token : Text) (now : Seconds)
      → a.sign c ≡ some token
      → now < c.expires_at
      → a.verify now token ≡ some c
  pub parse-uuid_text : (i : Uuid) → a.parse_uuid (a.uuid_text i) ≡ some i
  pub uuid_text_filled : (i : Uuid) → is_empty (trim_space (a.uuid_text i)) ≡ false

-- `uuid.Nil` is no scope.
abbrev proper : Option Uuid → Bool
proper none = true
proper (some p) = if p == uuid_nil then false else true

module _ (a : Auth) (laws : AuthLaws a) where
  identity_of-scope :
      (u : Uuid) (scope : Option Uuid)
      → proper scope ≡ true
      → identity_of a u (scope_text a scope)
        ≡ Passage.go (record { user = u; active_project = scope })
  unfolding trim_space
  identity_of-scope u none h = refl
  identity_of-scope u (some p) h = elim (Bool-cases (p == uuid_nil)) [
    | inl t ↦ ground arith
    | inr t ↦ rw (t, laws.uuid_text_filled p, laws.parse-uuid_text p) refl
  ]

  header_token :
      (token : Text) → token_of_parts (split_space (codes "Bearer " ++ token)) ≡ some token
  unfolding split_space eq_text to_lower
  header_token token = refl

  identify-known :
      (c : Claims) (u : Uuid)
      → a.parse_uuid c.user_id ≡ some u
      → identify a (some c) ≡ identity_of a u c.active_project_id
  identify-known c u e = go (a.parse_uuid c.user_id) e
    where
      go :
          (o : Option Uuid)
          → o ≡ some u
          → elim o [
            | none ↦ unauthorized (codes "invalid token user")
            | some user ↦ identity_of a user c.active_project_id
          ]
            ≡ identity_of a u c.active_project_id
      go none k = ground arith
      go (some v) k = ap (λ y. identity_of a y c.active_project_id) (some-injective v u k)

  admits :
      (now later_on : Seconds) (u : User) (scope : Option Uuid) (token : Text) (w w' : World)
      → proper scope ≡ true
      → generate a now u.id u.email scope w ≡ (ok token, w')
      → later_on < now + token_lifetime
      → auth_middleware a later_on (codes "Bearer " ++ token)
        ≡ Passage.go (record { user = u.id; active_project = scope })
  unfolding generate auth_middleware
  admits now later_on u scope token w w' h e soon =
      let signed =
        (or_raise-ok (a.sign (claims_for a now u.id u.email scope)) host_failed token w w' e).0 in
      let c = claims_for a now u.id u.email scope in
      ap (identify a) (laws.verify-sign c token later_on signed soon)
      ∙ identify-known c u.id (laws.parse-uuid_text u.id)
      ∙ identity_of-scope u.id scope h

  wanted-proper : (o : Option Uuid) → proper (wanted_scope o) ≡ true
  wanted-proper none = refl
  wanted-proper (some p) = elim (Bool-cases (p == uuid_nil)) [
    | inl t ↦ rw t refl
    | inr t ↦ rw (t, t) refl
  ]

-- The user is a member of the scope.
abbrev pub IsMemberOf : World → Uuid → Option Uuid → Type 0
IsMemberOf w u none = Unit
IsMemberOf w u (some p) = exists (is_membership p u) w.db.memberships ≡ true

check_scope-ok :
    (u : Uuid) (o : Option Uuid) (w w' : World)
    → check_scope u o w ≡ (ok tt, w')
    → IsMemberOf w' u o
unfolding user_has_project_access
check_scope-ok u none w w' e = tt
check_scope-ok u (some p) w w' e =
    let (b, v, read, rest) = >>=-ok (db_call (user_has_project_access u p)) _ tt w w' e in
    let (allowed, same) = guard-ok b not_a_member v w' rest in
    let found = (db_call-ok (user_has_project_access u p) b w v read).0 in ground arith

-- The answer's token is let pass, and its scope is one of the user's.
abbrev pub IsSession : Auth → Seconds → World → AuthResponse → Type 0
IsSession a later_on w r =
    (auth_middleware a later_on (codes "Bearer " ++ r.token)
      ≡ Passage.go (record { user = r.user.id; active_project = r.active_project_id }))
    × IsMemberOf w r.user.id r.active_project_id

issued :
    (a : Auth) (laws : AuthLaws a) (now later_on : Seconds) (u : User) (scope : Option Uuid)
    (r : AuthResponse) (w w' : World)
    → proper scope ≡ true
    → IsMemberOf w u.id scope
    → (generate a now u.id u.email scope >>= λ token.
          pure (record { token = token; user = u; active_project_id = scope }))
        w
      ≡ (ok r, w')
    → later_on < now + token_lifetime
    → IsSession a later_on w' r
unfolding generate
issued a laws now later_on u scope r w w' h member e soon =
    let (token, v, s, k) = >>=-ok (generate a now u.id u.email scope) _ r w w' e in
    let session : AuthResponse = record { token = token; user = u; active_project_id = scope } in
    let (same, end) = pure-ok session r v w' k in
    let kept =
      (or_raise-ok (a.sign (claims_for a now u.id u.email scope)) host_failed token w v s).1 in
    subst (λ x. IsSession a later_on w' x) same
      (
        admits a laws now later_on u scope token w v h s soon,
        subst (λ x. IsMemberOf x u.id scope) (kept ∙ end) member,
      )

-- A token of a login is let pass until it expires, as the user and the scope that the answer names; and
-- the user is a member of that scope.
pub login-auth_middleware :
    (a : Auth) (laws : AuthLaws a) (now later_on : Seconds) (input : LoginInput) (r : AuthResponse)
    (w w' : World)
    → login a now input w ≡ (ok r, w')
    → later_on < now + token_lifetime
    → IsSession a later_on w' r
unfolding login
login-auth_middleware a laws now later_on input r w w' e soon =
    let (user, w₁, s₁, e₁) = >>=-ok _ _ r w w' e in
    let (u₂, w₂, s₂, e₂) = >>=-ok _ _ r w₁ w' e₁ in
    let (u₃, w₃, s₃, e₃) = >>=-ok _ _ r w₂ w' e₂ in
    issued a laws now later_on user (wanted_scope input.project_id) r w₃ w'
      (wanted-proper a laws input.project_id)
      (check_scope-ok user.id (wanted_scope input.project_id) w₂ w₃ s₃) e₃ soon
