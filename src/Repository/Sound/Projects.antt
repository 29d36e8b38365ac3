-- ===== src/Repository/Sound/Projects.antt =====
-- The transaction that makes a project keeps the tables sound.
use casper_cloud.Prelude.{
  ◌≡◌, ◌≢◌, ◌==◌, ◌∙◌, sym, ap, refl, suc, arith, some, none, Option, Text, exists, select-cons,
  Bool-cases, inl, inr,
}
use casper_cloud.Data.{Uuid, Project, Membership, Network, User, Db}
use casper_cloud.Exec.{ok}
use casper_cloud.Exec.Keeps.{Kept}
use casper_cloud.Repository.Kept.{Kept-and_then_ok, Kept-and_then}
use casper_cloud.Repository.Create.{create_project}
use casper_cloud.Repository.Sound.Slots.{seed-Sound, read_prefix-Sound, read_address-Sound}
use casper_cloud.Repository.Accounts.{insert_project, insert_membership, is_membership}
use casper_cloud.Repository.Networks.{Net, insert_default_network, insert_network, network_texts}
use casper_cloud.Repository.Sound.{Sound}
use casper_cloud.Repository.Sound.Change.{with_projects, with_memberships, with_networks}

module _ (own : Uuid → Uuid) (p q : Uuid) (ne : p ≢ q) (d₀ d : Db) (h : Sound own q d₀ d) where
  pub insert_membership-Sound : (u : Uuid) → Sound own q d₀ (insert_membership p u d)
  unfolding insert_membership
  insert_membership-Sound u = elim (Bool-cases (exists (is_membership p u) d.memberships)) [
    | inl t ↦ rw t h
    | inr t ↦ rw t (
        with_memberships own q d₀ d h _
          (select-cons (λ (r : Membership). r.project_id == q) _ d.memberships (ground arith)))
  ]

  -- The id of a new network is one of the project.
  insert_network-Sound :
      (bridge : Text) (o : Option (Text × Text))
      → own d.next_id ≡ p
      → Kept (Sound own q d₀) (insert_network p bridge o d)
  insert_network-Sound bridge none e = tt
  insert_network-Sound bridge (some (c, g)) e =
      with_networks own q d₀ d h _ (e, h.networks.good)
        (select-cons (λ (r : Network). r.project_id == q) _ d.networks (ground arith))

  pub insert_default_network-Sound :
      (net : Net) (cidr gateway bridge : Text)
      → own d.next_id ≡ p
      → Kept (Sound own q d₀) (insert_default_network net p cidr gateway bridge d)
  unfolding insert_default_network
  insert_default_network-Sound net cidr gateway bridge e =
      ground (arith, insert_network-Sound bridge (network_texts net cidr gateway) e)

-- The id of a new project is not that of the project that is looked at.
pub insert_project-Sound :
    (own : Uuid → Uuid) (q u : Uuid) (name : Text) (d₀ d : Db)
    → Sound own q d₀ d
    → d.next_id ≢ q
    → Kept (Sound own q d₀) (insert_project u name d)
unfolding insert_project
insert_project-Sound own q u name d₀ d h new =
    elim (Bool-cases (exists (λ (r : User). r.id == u) d.users)) [
      | inl t ↦ rw t (
          with_projects own q d₀ d h _
            (select-cons (λ (r : Project). r.id == q) _ d.projects (ground arith)))
      | inr t ↦ rw t tt
    ]

-- What the project that was inserted is, and what comes next.
pub insert_project-ok :
    (u : Uuid) (name : Text) (r : Project) (d d' : Db)
    → insert_project u name d ≡ ok (r, d')
    → (r.id ≡ d.next_id) × (d'.next_id ≡ suc d.next_id)
unfolding insert_project
insert_project-ok u name r d d' e = elim (Bool-cases (exists (λ (x : User). x.id == u) d.users)) [
  | inl t ↦ ground arith
  | inr t ↦ ground arith
]

pub insert_membership-next_id :
    (p u : Uuid) (d : Db) → (insert_membership p u d).next_id ≡ d.next_id
unfolding insert_membership
insert_membership-next_id p u d = elim (Bool-cases (exists (is_membership p u) d.memberships)) [
  | inl t ↦ rw t refl
  | inr t ↦ rw t refl
]

-- The id that comes back is that of the new network.
insert_network-id :
    (p : Uuid) (bridge : Text) (o : Option (Text × Text)) (n : Uuid) (d d' : Db)
    → insert_network p bridge o d ≡ ok (n, d')
    → n ≡ d.next_id
insert_network-id p bridge none n d d' e = ground arith
insert_network-id p bridge (some (c, g)) n d d' e = ground arith

pub insert_default_network-id :
    (net : Net) (p : Uuid) (cidr gateway bridge : Text) (n : Uuid) (d d' : Db)
    → insert_default_network net p cidr gateway bridge d ≡ ok (n, d')
    → n ≡ d.next_id
unfolding insert_default_network
insert_default_network-id net p cidr gateway bridge n d d' e =
    ground (arith, insert_network-id p bridge (network_texts net cidr gateway) n d d')

-- A new project is not `q`, and the id of its network is one of it.
pub create_project-Sound :
    (own : Uuid → Uuid) (q : Uuid) (net : Net) (u : Uuid) (name cidr gateway bridge : Text)
    (d₀ d : Db)
    → Sound own q d₀ d
    → d.next_id ≢ q
    → own (suc d.next_id) ≡ d.next_id
    → Kept (Sound own q d₀) (create_project net u name cidr gateway bridge d)
unfolding create_project
create_project-Sound own q net u name cidr gateway bridge d₀ d h new mine =
    Kept-and_then_ok (Sound own q d₀) _ _ (insert_project-Sound own q u name d₀ d h new)
      λ p d₁ e₁ h₁.
        let (id, next) = insert_project-ok u name p d d₁ e₁ in
        let ne : p.id ≢ q = λ same. new (sym id ∙ same) in
        let d₂ = insert_membership p.id u d₁ in
        let next₂ : d₂.next_id ≡ suc d.next_id = insert_membership-next_id p.id u d₁ ∙ next in
        let own_id : own d₂.next_id ≡ p.id = ap own next₂ ∙ mine ∙ sym id in
        Kept-and_then_ok (Sound own q d₀) _ _
          (insert_default_network-Sound own p.id q ne d₀ d₂
            (insert_membership-Sound own p.id q ne d₀ d₁ h₁ u) net cidr gateway bridge own_id)
          λ n d₃ e₃ h₃.
            let n_id = insert_default_network-id net p.id cidr gateway bridge n d₂ d₃ e₃ in
            let other : own n ≢ q = λ same. ne (sym own_id ∙ ap own (sym n_id) ∙ same) in
            Kept-and_then (Sound own q d₀) _ _
              (read_prefix-Sound own q d₀ net (net.parse_prefix cidr) d₃ h₃)
              λ x d₄ h₄.
                Kept-and_then (Sound own q d₀) _ _
                  (read_address-Sound own q d₀ net (net.parse_addr gateway) d₄ h₄)
                  λ g d₅ h₅.
                    Kept-and_then (Sound own q d₀) _ _ (seed-Sound own q d₀ net n x g d₅ other h₅)
                      λ _ d₆ h₆. h₆
