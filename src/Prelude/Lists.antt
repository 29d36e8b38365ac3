-- ===== src/Prelude/Lists.antt =====
-- Lists over the native numbers, and tables: a table is the list of its rows, and a statement of SQL
-- selects, counts, changes or deletes the rows that pass its WHERE clause.
use Prim.Native.Nat.{ℕ, suc}
use mathlib.Core.Path.{◌≡◌, refl, ap, subst}
use mathlib.Core.Bool.{Bool, true, false}
use mathlib.Core.Option.{Option, none, some, some-injective}
use mathlib.Core.List.{List, [], ◌∷◌}
use native.Mathlib.Omega.{arith}
use casper_cloud.Prelude.Tests.{if◌then◌else◌, leb, Bool-cases}
use mathlib.Core.Logic.{inl, inr}

module _ {ℓ} {A : Type ℓ} where
  abbrev pub length : List A → ℕ
  length [] = 0
  length (x ∷ xs) = suc (length xs)

  abbrev pub All {κ} : (A → Type κ) → List A → Type κ
  All P [] = Unit
  All P (x ∷ xs) = P x × All P xs

  -- `SELECT … WHERE p`, all rows.
  unfoldable pub select : (A → Bool) → List A → List A
  select p [] = []
  select p (x ∷ xs) = if p x then x ∷ select p xs else select p xs

  -- `SELECT … WHERE p`, the one row that `QueryRow` scans.
  unfoldable pub select_row : (A → Bool) → List A → Option A
  select_row p [] = none
  select_row p (x ∷ xs) = if p x then some x else select_row p xs

  -- `SELECT EXISTS (… WHERE p)`; of an UPDATE or a DELETE, that `RowsAffected()` is not 0.
  unfoldable pub exists : (A → Bool) → List A → Bool
  exists p [] = false
  exists p (x ∷ xs) = if p x then true else exists p xs

  -- `SELECT COUNT(*) … WHERE p`
  unfoldable pub count : (A → Bool) → List A → ℕ
  count p [] = 0
  count p (x ∷ xs) = if p x then suc (count p xs) else count p xs

  -- `UPDATE … SET f WHERE p`
  unfoldable pub update : (A → Bool) → (A → A) → List A → List A
  update p f [] = []
  update p f (x ∷ xs) = (if p x then f x else x) ∷ update p f xs

  -- `DELETE … WHERE p`
  unfoldable pub delete : (A → Bool) → List A → List A
  delete p [] = []
  delete p (x ∷ xs) = if p x then delete p xs else x ∷ delete p xs

  abbrev insert_by : (A → ℕ) → A → List A → List A
  insert_by key x [] = x ∷ []
  insert_by key x (y ∷ ys) = if leb (key x) (key y) then x ∷ y ∷ ys else y ∷ insert_by key x ys

  -- `ORDER BY key`
  unfoldable pub order_by : (A → ℕ) → List A → List A
  order_by key [] = []
  order_by key (x ∷ xs) = insert_by key x (order_by key xs)

  abbrev insert_by_desc : (A → ℕ) → A → List A → List A
  insert_by_desc key x [] = x ∷ []
  insert_by_desc key x (y ∷ ys) =
      if leb (key y) (key x) then x ∷ y ∷ ys else y ∷ insert_by_desc key x ys

  -- `ORDER BY key DESC`
  unfoldable pub order_by_desc : (A → ℕ) → List A → List A
  order_by_desc key [] = []
  order_by_desc key (x ∷ xs) = insert_by_desc key x (order_by_desc key xs)

  abbrev pub lesser : (A → ℕ) → A → Option A → A
  lesser key x none = x
  lesser key x (some y) = if leb (key x) (key y) then x else y

  -- `ORDER BY key LIMIT 1`
  unfoldable pub lowest : (A → ℕ) → List A → Option A
  lowest key [] = none
  lowest key (x ∷ xs) = some (lesser key x (lowest key xs))

  -- An UPDATE that leaves the rows of a view alone does not change the view.
  pub select-update :
      (q p : A → Bool) (f : A → A)
      → ((a : A) → p a ≡ true → (q a ≡ false) × (q (f a) ≡ false))
      → (xs : List A) → select q (update p f xs) ≡ select q xs
  unfolding select update
  select-update q p f h [] = refl
  select-update q p f h (x ∷ xs) = ground (arith, h x, select-update q p f h xs)

  pub select-delete :
      (q p : A → Bool)
      → ((a : A) → p a ≡ true → q a ≡ false)
      → (xs : List A) → select q (delete p xs) ≡ select q xs
  unfolding select delete
  select-delete q p h [] = refl
  select-delete q p h (x ∷ xs) = ground (arith, h x, select-delete q p h xs)

  pub select-cons :
      (q : A → Bool) (x : A) (xs : List A) → q x ≡ false → select q (x ∷ xs) ≡ select q xs
  unfolding select
  select-cons q x xs h = ground arith

  pub All-update {κ} :
      (P : A → Type κ) (p : A → Bool) (f : A → A)
      → ((a : A) → p a ≡ true → P a → P (f a))
      → (xs : List A) → All P xs
      → All P (update p f xs)
  unfolding update
  All-update P p f h [] v = tt
  All-update P p f h (x ∷ xs) v = (go (p x) (h x), All-update P p f h xs v.1)
    where
      go : (b : Bool) → (b ≡ true → P x → P (f x)) → P (if b then f x else x)
      go true k = k refl v.0
      go false k = v.0

  pub All-delete {κ} :
      (P : A → Type κ) (p : A → Bool) (xs : List A) → All P xs → All P (delete p xs)
  unfolding delete
  All-delete P p [] v = tt
  All-delete P p (x ∷ xs) v = go (p x) (All-delete P p xs v.1)
    where
      go : (b : Bool) → All P (delete p xs) → All P (if b then delete p xs else x ∷ delete p xs)
      go true k = k
      go false k = (v.0, k)

  pub All-map {κ μ} :
      (P : A → Type κ) (Q : A → Type μ)
      → ((a : A) → P a → Q a)
      → (xs : List A) → All P xs
      → All Q xs
  All-map P Q h [] v = tt
  All-map P Q h (x ∷ xs) v = (h x v.0, All-map P Q h xs v.1)

  -- What `QueryRow` finds passes the clause, and holds what all rows hold.
  pub select_row_sound :
      (p : A → Bool) (x : A) (xs : List A) → select_row p xs ≡ some x → p x ≡ true
  unfolding select_row
  select_row_sound p x [] e = ground arith
  select_row_sound p x (y ∷ ys) e = elim (Bool-cases (p y)) [
    | inl t ↦ ground arith
    | inr t ↦ ground (arith, select_row_sound p x ys)
  ]

  pub select_row-All {κ} :
      (P : A → Type κ) (p : A → Bool) (x : A) (xs : List A)
      → All P xs
      → select_row p xs ≡ some x
      → P x
  unfolding select_row
  select_row-All P p x [] v e = ground arith
  select_row-All P p x (y ∷ ys) v e = elim (Bool-cases (p y)) [
    | inl t ↦ subst P (some-injective y x (rw t at e)) v.0
    | inr t ↦ select_row-All P p x ys v.1 (rw t at e)
  ]

  pub exists-select_row :
      (p : A → Bool) (x : A) (xs : List A) → select_row p xs ≡ some x → exists p xs ≡ true
  unfolding select_row exists
  exists-select_row p x [] e = ground arith
  exists-select_row p x (y ∷ ys) e = ground (arith, exists-select_row p x ys)

  pub select_row-exists :
      (p : A → Bool) (xs : List A) → exists p xs ≡ true → (x : A) × (select_row p xs ≡ some x)
  unfolding select_row exists
  select_row-exists p [] e = ground arith
  select_row-exists p (y ∷ ys) e = elim (Bool-cases (p y)) [
    | inl t ↦ (y, rw t)
    | inr t ↦ rw t (select_row-exists p ys (rw t at e))
  ]

  -- An UPDATE that keeps its own WHERE clause is read back changed.
  pub select_row-update :
      (p : A → Bool) (f : A → A)
      → ((a : A) → p a ≡ true → p (f a) ≡ true)
      → (x : A) (xs : List A) → select_row p xs ≡ some x
      → select_row p (update p f xs) ≡ some (f x)
  unfolding select_row update
  select_row-update p f h x [] e = ground arith
  select_row-update p f h x (y ∷ ys) e = elim (Bool-cases (p y)) [
    | inl t ↦ rw (t, h y t) (ap (λ a. some (f a)) (some-injective y x (rw t at e)))
    | inr t ↦ rw (t, t) (select_row-update p f h x ys (rw t at e))
  ]

  -- A read whose clause no changed row passes, before or after, is not affected.
  pub select_row-update_other :
      (q p : A → Bool) (f : A → A)
      → ((a : A) → p a ≡ true → (q a ≡ false) × (q (f a) ≡ false))
      → (xs : List A) → select_row q (update p f xs) ≡ select_row q xs
  unfolding select_row update
  select_row-update_other q p f h [] = refl
  select_row-update_other q p f h (y ∷ ys) = ground (arith, h y, select_row-update_other q p f h ys)
