-- ===== src/Repository/Statement.antt =====
-- What statements share: their type, a row that must be there, and a transaction of two steps.
use casper_cloud.Prelude.{Bool, Option, none, some, if◌then◌else◌}
use casper_cloud.Data.{Error, Db}
use casper_cloud.Exec.{Result, ok, err}

abbrev pub Statement : Type 0 → Type 0
Statement A = Db → Result (A × Db)

abbrev pub Done : Type 0
Done = Unit {0}

module _ {A : Type 0} where
  -- `pgx.ErrNoRows` becomes `e`.
  abbrev pub one_row : Option A → Error → Statement A
  one_row none e d = err e
  one_row (some a) e d = ok (a, d)

  abbrev pub fail : Error → Statement A
  fail e d = err e

-- Two steps of one transaction.
abbrev pub and_then : {A B : Type 0} → Result (A × Db) → (A → Statement B) → Result (B × Db)
and_then (ok (a, d)) f = f a d
and_then (err e) f = err e

-- `if cmd.RowsAffected() == 0 { return ErrNotFound }`
abbrev pub affected : Bool → Error → Db → Result (Done × Db)
affected b e d = if b then ok (tt, d) else err e
