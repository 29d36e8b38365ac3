-- ===== src/Repository/Kept.antt =====
-- What a statement keeps, by the shape of the statement.
use casper_cloud.Prelude.{Bool, true, false, Option, none, some, ◌≡◌, refl, arith, if◌then◌else◌}
use casper_cloud.Data.{Error, Db}
use casper_cloud.Exec.{Result, ok, err}
use casper_cloud.Exec.Keeps.{Kept}
use casper_cloud.Repository.Statement.{Statement, one_row, affected, and_then}

module _ (P : Db → Type 0) where
  pub Kept-one_row : {A : Type 0} (o : Option A) (e : Error) (d : Db) → P d → Kept P (one_row o e d)
  Kept-one_row none e d h = tt
  Kept-one_row (some a) e d h = h

  pub Kept-affected : (b : Bool) (e : Error) (d : Db) → P d → Kept P (affected b e d)
  Kept-affected true e d h = h
  Kept-affected false e d h = tt

  pub Kept-if :
      {A : Type 0} (b : Bool) (r s : Result (A × Db))
      → (b ≡ true → Kept P r)
      → (b ≡ false → Kept P s)
      → Kept P (if b then r else s)
  Kept-if true r s k l = k refl
  Kept-if false r s k l = l refl

  pub Kept-and_then :
      {A B : Type 0} (r : Result (A × Db)) (f : A → Statement B)
      → Kept P r
      → ((a : A) (d : Db) → P d → Kept P (f a d))
      → Kept P (and_then r f)
  Kept-and_then (ok (a, d)) f h k = k a d h
  Kept-and_then (err e) f h k = tt

  -- The rest may use which result and which tables the first step gives.
  pub Kept-and_then_ok :
      {A B : Type 0} (r : Result (A × Db)) (f : A → Statement B)
      → Kept P r
      → ((a : A) (d : Db) → r ≡ ok (a, d) → P d → Kept P (f a d))
      → Kept P (and_then r f)
  Kept-and_then_ok (ok (a, d)) f h k = k a d refl h
  Kept-and_then_ok (err e) f h k = tt

pub one_row-ok :
    {A : Type 0} (o : Option A) (e : Error) (d : Db) (a : A) (d' : Db)
    → one_row o e d ≡ ok (a, d')
    → (o ≡ some a) × (d ≡ d')
one_row-ok none e d a d' h = ground arith
one_row-ok (some b) e d a d' h = ground arith

pub affected-ok :
    (b : Bool) (e : Error) (d d' : Db) → affected b e d ≡ ok (tt, d') → (b ≡ true) × (d ≡ d')
affected-ok true e d d' h = ground arith
affected-ok false e d d' h = ground arith

pub and_then-ok :
    {A B : Type 0} (r : Result (A × Db)) (f : A → Statement B) (b : B) (d' : Db)
    → and_then r f ≡ ok (b, d')
    → (a : A) × (d : Db) × (r ≡ ok (a, d)) × (f a d ≡ ok (b, d'))
and_then-ok (ok (a, d)) f b d' h = (a, d, refl, h)
and_then-ok (err e) f b d' h = ground arith
