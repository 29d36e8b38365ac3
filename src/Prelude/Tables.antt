-- ===== src/Prelude/Tables.antt =====
-- Which rows an UPDATE or a DELETE leaves.
use Prim.Native.Nat.{ℕ, ◌≤◌}
use mathlib.Core.Path.{◌≡◌, ◌∙◌, ap, subst, refl, sym}
use mathlib.Core.Logic.{◌⊎◌, inl, inr}
use mathlib.Core.Bool.{Bool, true, false}
use mathlib.Core.Option.{some, some-injective}
use mathlib.Core.List.{List, [], ◌∷◌}
use native.Mathlib.Omega.{arith}
use casper_cloud.Prelude.Tests.{leb, Bool-cases}
use casper_cloud.Prelude.Lists.{
  All, All-map, select, select_row, exists, update, delete, lesser, lowest,
}

module _ {ℓ} {A : Type ℓ} where
  -- No row that a DELETE selects is left.
  pub exists-delete : (p : A → Bool) (xs : List A) → exists p (delete p xs) ≡ false
  unfolding exists delete
  exists-delete p [] = refl
  exists-delete p (x ∷ xs) = ground (arith, exists-delete p xs)

  -- No row that an UPDATE selects is left if the change takes it out of the selection.
  pub exists-update_out :
      (p : A → Bool) (f : A → A)
      → ((a : A) → p (f a) ≡ false)
      → (xs : List A) → exists p (update p f xs) ≡ false
  unfolding exists update
  exists-update_out p f h [] = refl
  exists-update_out p f h (x ∷ xs) = elim (Bool-cases (p x)) [
    | inl t ↦ rw (t, h x) (exists-update_out p f h xs)
    | inr t ↦ rw (t, t) (exists-update_out p f h xs)
  ]

  -- A row is found again, changed or not, where the change does not touch the clause.
  pub select_row-update_kept :
      (p q : A → Bool) (f : A → A)
      → ((a : A) → p (f a) ≡ p a)
      → (x : A) (xs : List A) → select_row p xs ≡ some x
      → (y : A) × (select_row p (update q f xs) ≡ some y) × ((y ≡ x) ⊎ (y ≡ f x))
  unfolding select_row update
  select_row-update_kept p q f h x [] e = ground arith
  select_row-update_kept p q f h x (a ∷ xs) e = elim (Bool-cases (p a)) [
    | inl t ↦ elim (Bool-cases (q a)) [
      | inl u ↦ (f x, rw (u, h a, t, some-injective a x (rw t at e)) refl, inr refl)
      | inr u ↦ (x, rw (u, t, some-injective a x (rw t at e)) refl, inl refl)
    ]
    | inr t ↦
        let (y, found, same) = select_row-update_kept p q f h x xs (rw t at e) in
        elim (Bool-cases (q a)) [
          | inl u ↦ (y, rw (u, h a, t) found, same)
          | inr u ↦ (y, rw (u, t) found, same)
        ]
  ]

  -- A row that the UPDATE selects is found again changed, by a clause that the change does not touch.
  pub select_row-update_in :
      (p q : A → Bool) (f : A → A)
      → ((a : A) → p (f a) ≡ p a)
      → (x : A) (xs : List A) → q x ≡ true
      → select_row p xs ≡ some x
      → select_row p (update q f xs) ≡ some (f x)
  unfolding select_row update
  select_row-update_in p q f h x [] c e = ground arith
  select_row-update_in p q f h x (a ∷ xs) c e = elim (Bool-cases (p a)) [
    | inl t ↦
        let same = some-injective a x (rw t at e) in rw (same, c, h x, sym (ap p same) ∙ t) refl
    | inr t ↦ elim (Bool-cases (q a)) [
      | inl u ↦ rw (u, h a, t) (select_row-update_in p q f h x xs c (rw t at e))
      | inr u ↦ rw (u, t) (select_row-update_in p q f h x xs c (rw t at e))
    ]
  ]

  -- The row that a clause finds is the one that a narrower clause finds, if it passes that.
  pub select_row-narrow :
      (p q : A → Bool) (x : A) (xs : List A)
      → ((a : A) → q a ≡ true → p a ≡ true)
      → q x ≡ true
      → select_row p xs ≡ some x
      → select_row q xs ≡ some x
  unfolding select_row
  select_row-narrow p q x [] h c e = ground arith
  select_row-narrow p q x (a ∷ xs) h c e = elim (Bool-cases (q a)) [
    | inl t ↦ rw t (rw (h a t) at e)
    | inr t ↦ elim (Bool-cases (p a)) [
      | inl u ↦ ground (arith, ap q (some-injective a x (rw u at e)))
      | inr u ↦ rw t (select_row-narrow p q x xs h c (rw u at e))
    ]
  ]

  -- What a clause finds after its own UPDATE is a row that was changed.
  pub select_row-update_changed :
      (p : A → Bool) (f : A → A) (y : A) (xs : List A)
      → ((a : A) → p (f a) ≡ p a)
      → select_row p (update p f xs) ≡ some y
      → (x : A) × (p x ≡ true) × (y ≡ f x)
  unfolding select_row update
  select_row-update_changed p f y [] h e = ground arith
  select_row-update_changed p f y (a ∷ xs) h e = elim (Bool-cases (p a)) [
    | inl t ↦ (a, t, sym (some-injective (f a) y (rw (t, h a, t) at e)))
    | inr t ↦ select_row-update_changed p f y xs h (rw (t, t) at e)
  ]

  -- `ORDER BY key LIMIT 1` gives a row of the table, and none has a lesser key.
  pub lowest-All :
      (key : A → ℕ) (x : A) (xs : List A) → lowest key xs ≡ some x → All (λ y. key x ≤ key y) xs
  unfolding lowest
  lowest-All key x [] e = tt
  lowest-All key x (a ∷ []) e = (rw⁻¹ (some-injective a x e) (omega arith), tt)
  lowest-All key x (a ∷ b ∷ xs) e =
      let m = lesser key b (lowest key xs) in
      let least = lowest-All key m (b ∷ xs) refl in
      elim (Bool-cases (leb (key a) (key m))) [
        | inl t ↦
            let same = some-injective a x (rw t at e) in
            subst (λ z. All (λ y. key z ≤ key y) (a ∷ b ∷ xs)) same
              (
                (omega arith),
                All-map (λ y. key m ≤ key y) (λ y. key a ≤ key y) (λ y h. ground arith) (b ∷ xs)
                    least,
              )
        | inr t ↦
            subst (λ z. All (λ y. key z ≤ key y) (a ∷ b ∷ xs)) (some-injective m x (rw t at e))
              ((ground arith), least)
      ]

  -- Every row of the selection passes the clause, and so does the one of `LIMIT 1`.
  pub select-All : (p : A → Bool) (xs : List A) → All (λ y. p y ≡ true) (select p xs)
  unfolding select
  select-All p [] = tt
  select-All p (x ∷ xs) = elim (Bool-cases (p x)) [
    | inl t ↦ rw t (t, select-All p xs)
    | inr t ↦ rw t (select-All p xs)
  ]

  pub lowest_passes {κ} :
      (P : A → Type κ) (key : A → ℕ) (x : A) (xs : List A) → All P xs → lowest key xs ≡ some x → P x
  unfolding lowest
  lowest_passes P key x [] v e = ground arith
  lowest_passes P key x (a ∷ []) v e = subst P (some-injective a x e) v.0
  lowest_passes P key x (a ∷ b ∷ xs) v e =
      let m = lesser key b (lowest key xs) in
      elim (Bool-cases (leb (key a) (key m))) [
        | inl t ↦ subst P (some-injective a x (rw t at e)) v.0
        | inr t ↦ subst P (some-injective m x (rw t at e)) (lowest_passes P key m (b ∷ xs) v.1 refl)
      ]

  -- No row of a selection is left if the changed rows leave it and the others were not in it.
  pub exists-update_none :
      (p q : A → Bool) (f : A → A)
      → ((a : A) → p (f a) ≡ false)
      → ((a : A) → q a ≡ false → p a ≡ false)
      → (xs : List A) → exists p (update q f xs) ≡ false
  unfolding exists update
  exists-update_none p q f h k [] = refl
  exists-update_none p q f h k (x ∷ xs) = elim (Bool-cases (q x)) [
    | inl t ↦ rw (t, h x) (exists-update_none p q f h k xs)
    | inr t ↦ rw (t, k x t) (exists-update_none p q f h k xs)
  ]

  -- Tables that agree on a selection agree on a narrower one.
  select-narrow :
      (p q : A → Bool)
      → ((a : A) → q a ≡ true → p a ≡ true)
      → (xs : List A) → select q (select p xs) ≡ select q xs
  unfolding select
  select-narrow p q h [] = refl
  select-narrow p q h (x ∷ xs) = ground (arith, h x, select-narrow p q h xs)

  pub select-view :
      (p q : A → Bool)
      → ((a : A) → q a ≡ true → p a ≡ true)
      → (xs ys : List A) → select p xs ≡ select p ys
      → select q xs ≡ select q ys
  select-view p q h xs ys e =
      sym (select-narrow p q h xs) ∙ ap (select q) e ∙ select-narrow p q h ys

  -- An UPDATE of a row that is there leaves a row of the clause that the change brings about.
  pub exists-update_in :
      (p g : A → Bool) (f : A → A)
      → ((a : A) → g a ≡ true → p (f a) ≡ true)
      → (xs : List A) → exists g xs ≡ true
      → exists p (update g f xs) ≡ true
  unfolding exists update
  exists-update_in p g f h [] e = ground arith
  exists-update_in p g f h (x ∷ xs) e = elim (Bool-cases (g x)) [
    | inl t ↦ rw (t, h x t) refl
    | inr t ↦ elim (Bool-cases (p x)) [
      | inl u ↦ rw (t, u) refl
      | inr u ↦ rw (t, u) (exists-update_in p g f h xs (rw t at e))
    ]
  ]

  -- A row of a table is found in it.
  pub exists_self :
      (same : A → A → Bool)
      → ((a : A) → same a a ≡ true)
      → (xs : List A) → All (λ y. exists (same y) xs ≡ true) xs
  unfolding exists
  exists_self same h [] = tt
  exists_self same h (x ∷ xs) = (
    rw (h x) refl,
    All-map (λ y. exists (same y) xs ≡ true) (λ y. exists (same y) (x ∷ xs) ≡ true)
        (λ y e. ground (arith, e)) xs (exists_self same h xs),
  )

  -- What all rows hold, those of a selection hold, and they pass its clause.
  pub All-select {κ} :
      (P : A → Type κ) (g : A → Bool) (xs : List A)
      → All P xs
      → All (λ y. (g y ≡ true) × P y) (select g xs)
  unfolding select
  All-select P g [] v = tt
  All-select P g (x ∷ xs) v = elim (Bool-cases (g x)) [
    | inl t ↦ rw t ((t, v.0), All-select P g xs v.1)
    | inr t ↦ rw t (All-select P g xs v.1)
  ]
