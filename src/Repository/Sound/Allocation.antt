-- ===== src/Repository/Sound/Allocation.antt =====
-- A floating IP that is allocated was no project's. Its row is found by its id, and ids are unique.
use casper_cloud.Prelude.{
  sym, subst, ◌≡◌, ◌≢◌, refl, ◌==◌, ◌&&◌, not, is_some, Bool, true, Option, none, some, List, [],
  ◌∷◌, arith, All, All-update, All-map, select, select-update, update, lowest, lowest_passes,
  points_to, Bool-cases, inl, inr, ==_eq,
}
use casper_cloud.Data.{Uuid, FloatingIpStatus, FloatingIp, Db}
use casper_cloud.Exec.Keeps.{Kept}
use casper_cloud.Repository.Kept.{Kept-one_row}
use casper_cloud.Repository.FloatingIps.{
  is_unallocated, allocate_pick, allocate_floating_ip_to_project,
}
use casper_cloud.Repository.Sound.{Sound, FloatingIpOk, DistinctIds}
use casper_cloud.Repository.Sound.Change.{with_floating_ips, DistinctIds-update}

-- Where `f` has a status, each row of its id has it.
abbrev AsFree : List FloatingIp → FloatingIp → Type 0
AsFree xs f = All (λ r. (r.id == f.id) ≡ true → is_unallocated r.status ≡ true) xs

not_same : (i j : Uuid) → i ≢ j → (i == j) ≡ true → ⊥
not_same i j ne e = ne (==_eq i j e)

AsFree-later : (x : FloatingIp) (xs : List FloatingIp) → All (λ r. r.id ≢ x.id) xs → AsFree xs x
AsFree-later x xs h = All-map (λ r. r.id ≢ x.id) _ (λ r ne e. absurd (not_same r.id x.id ne e)) xs h

AsFree-earlier :
    (x : FloatingIp) (ys xs : List FloatingIp)
    → All (λ r. r.id ≢ x.id) ys
    → All (AsFree xs) ys
    → All (AsFree (x ∷ xs)) ys
AsFree-earlier x [] xs h k = tt
AsFree-earlier x (y ∷ ys) xs h k =
    (((λ e. absurd (not_same x.id y.id (λ s. h.0 (sym s)) e)), k.0), AsFree-earlier x ys xs h.1 k.1)

All-select :
    (P : FloatingIp → Type 0) (g : FloatingIp → Bool) (xs : List FloatingIp)
    → All P xs
    → All P (select g xs)
unfolding select
All-select P g [] h = tt
All-select P g (x ∷ xs) h = elim (Bool-cases (g x)) [
  | inl t ↦ rw t (h.0, All-select P g xs h.1)
  | inr t ↦ rw t (All-select P g xs h.1)
]

selected_free :
    (g : FloatingIp → Bool)
    → ((r : FloatingIp) → g r ≡ true → is_unallocated r.status ≡ true)
    → (xs : List FloatingIp) → DistinctIds xs
    → All (AsFree xs) (select g xs)
unfolding select
selected_free g free [] u = tt
selected_free g free (x ∷ xs) u =
    let rest =
      AsFree-earlier x (select g xs) xs (All-select (λ r. r.id ≢ x.id) g xs u.0)
        (selected_free g free xs u.1) in
    elim (Bool-cases (g x)) [
      | inl t ↦ rw t (((λ e. free x t), AsFree-later x xs u.0), rest)
      | inr t ↦ rw t rest
    ]

-- A clause that all rows of an UPDATE pass may be added to it.
update-narrow :
    (p c : FloatingIp → Bool) (f : FloatingIp → FloatingIp) (xs : List FloatingIp)
    → All (λ r. p r ≡ true → c r ≡ true) xs
    → update p f xs ≡ update (λ r. p r && c r) f xs
unfolding update
update-narrow p c f [] h = refl
update-narrow p c f (x ∷ xs) h = ground (arith, h.0, update-narrow p c f xs h.1)

-- An unallocated row has no project.
abbrev is_free : FloatingIp → Bool
is_free r = is_unallocated r.status && not (is_some r.project_id)

free_rows :
    (own : Uuid → Uuid) (f : FloatingIp) (xs : List FloatingIp)
    → AsFree xs f
    → All (FloatingIpOk own) xs
    → All (λ r. (r.id == f.id) ≡ true → is_free r ≡ true) xs
free_rows own f [] k v = tt
free_rows own f (x ∷ xs) k v = ((λ e. ground (arith, k.0 e, v.0.0)), free_rows own f xs k.1 v.1)

module _ (own : Uuid → Uuid) (p q : Uuid) (ne : p ≢ q) (d₀ d : Db) (h : Sound own q d₀ d) where
  allocate_pick-Sound :
      (o : Option FloatingIp)
      → ((f : FloatingIp) → o ≡ some f → AsFree d.floating_ips f)
      → Kept (Sound own q d₀) (allocate_pick o p d)
  allocate_pick-Sound none k = tt
  allocate_pick-Sound (some f) k =
      let g = λ (r : FloatingIp). r.id == f.id && is_free r in
      let change = λ (r : FloatingIp). record r {
        project_id = some p;
        status = FloatingIpStatus.allocated;
        updated_at = d.now;
      } in
      let kept =
        with_floating_ips own q d₀ d h (update g change d.floating_ips)
          (All-update (FloatingIpOk own) g change (λ r t v. ground arith) d.floating_ips
            h.floating_ips.good)
          (DistinctIds-update g change (λ r. refl) d.floating_ips h.distinct)
          (select-update (λ r. points_to r.project_id q) g change (λ r t. ground arith)
            d.floating_ips) in
      Kept-one_row (Sound own q d₀) _ _ _ (
        subst (λ rows. Sound own q d₀ (record d { floating_ips = rows }))
          (sym (
            update-narrow (λ r. r.id == f.id) is_free change d.floating_ips
              (free_rows own f d.floating_ips (k f refl) h.floating_ips.good)))
          kept)

  pub allocate-Sound :
      (locked : Uuid → Bool) → Kept (Sound own q d₀) (allocate_floating_ip_to_project locked p d)
  unfolding allocate_floating_ip_to_project
  allocate-Sound locked =
      let g = λ (r : FloatingIp). is_unallocated r.status && not (locked r.id) in
      allocate_pick-Sound (lowest (λ r. r.public_ip) (select g d.floating_ips)) (λ f e.
        lowest_passes (AsFree d.floating_ips) (λ r. r.public_ip) f (select g d.floating_ips)
          (selected_free g (λ r t. ground arith) d.floating_ips h.distinct) e)
