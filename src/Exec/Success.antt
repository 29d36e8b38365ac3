-- ===== src/Exec/Success.antt =====
-- What a run that returns has done: inversion of each way to build a run.
use casper_cloud.Prelude.{
  ◌≡◌, refl, Bool, true, false, if◌then◌else◌, Option, none, some, [], ◌∷◌, ◌++◌, arith,
}
use casper_cloud.Data.{Error, Db, TaskMessage}
use casper_cloud.Exec.{
  Result, ok, err, Event, World, Exec, fails, later, pure, raise, or_raise, db_call, recover,
  on_error, request, publish_task, continue, ◌>>=◌,
}

module _ {A : Type 0} where
  pub pure-ok : (a b : A) (w w' : World) → pure a w ≡ (ok b, w') → (a ≡ b) × (w ≡ w')
  unfolding pure
  pure-ok a b w w' e = ground arith

  pub or_raise-ok :
      (o : Option A) (e : Error) (a : A) (w w' : World)
      → or_raise o e w ≡ (ok a, w')
      → (o ≡ some a) × (w ≡ w')
  unfolding raise pure
  or_raise-ok none e a w w' h = ground arith
  or_raise-ok (some b) e a w w' h = ground arith

  recover-ok :
      (h : Error → Exec (Unit {0})) (r : Result A) (a : A) (w w' : World)
      → recover h r w ≡ (ok a, w')
      → (r ≡ ok a) × (w ≡ w')
  recover-ok h (ok b) a w w' e = ground arith
  recover-ok h (err x) a w w' e = ground arith

  pub on_error-ok :
      (m : Exec A) (h : Error → Exec (Unit {0})) (a : A) (w w' : World)
      → on_error m h w ≡ (ok a, w')
      → m w ≡ (ok a, w')
  unfolding on_error
  on_error-ok m h a w w' e = ground (arith, recover-ok h (m w).0 a (m w).1 w' e)

  -- A call of the database that returns has run its statement, and done nothing else.
  pub db_call-ok :
      (f : Db → Result (A × Db)) (a : A) (w w' : World)
      → db_call f w ≡ (ok a, w')
      → (f w.db ≡ ok (a, w'.db)) × (w'.queue ≡ w.queue) × (w'.log ≡ w.log)
  unfolding db_call
  db_call-ok f a w w' e = ground arith

pub request-ok :
    (ev : Event) (e : Error) (w w' : World)
    → request ev e w ≡ (ok tt, w')
    → (w'.db ≡ w.db) × (w'.queue ≡ w.queue) × (w'.log ≡ ev ∷ w.log)
unfolding request
request-ok ev e w w' h = ground arith

pub publish_task-ok :
    (msg : TaskMessage) (w w' : World)
    → publish_task msg w ≡ (ok tt, w')
    → (w'.db ≡ w.db) × (w'.queue ≡ w.queue ++ msg ∷ []) × (w'.log ≡ w.log)
unfolding publish_task
publish_task-ok msg w w' h = ground arith

module _ {A B : Type 0} where
  continue-ok :
      (r : Result A) (f : A → Exec B) (b : B) (w w' : World)
      → continue r f w ≡ (ok b, w')
      → (a : A) × (r ≡ ok a) × (f a w ≡ (ok b, w'))
  continue-ok (ok a) f b w w' e = (a, refl, e)
  continue-ok (err x) f b w w' e = ground arith

  pub >>=-ok :
      (m : Exec A) (f : A → Exec B) (b : B) (w w' : World)
      → (m >>= f) w ≡ (ok b, w')
      → (a : A) × (v : World) × (m w ≡ (ok a, v)) × (f a v ≡ (ok b, w'))
  unfolding ◌>>=◌
  >>=-ok m f b w w' e =
      let (a, p, q) = continue-ok (m w).0 f b (m w).1 w' e in (a, (m w).1, (λ i. (p i, (m w).1)), q)

-- Forward: how a run goes on from a step that returns, or that fails.
module _ {A B : Type 0} where
  pub >>=-return :
      (m : Exec A) (f : A → Exec B) (a : A) (w v : World) → m w ≡ (ok a, v) → (m >>= f) w ≡ f a v
  unfolding ◌>>=◌
  >>=-return m f a w v e = rw e refl

  pub >>=-fail :
      (m : Exec A) (f : A → Exec B) (x : Error) (w v : World)
      → m w ≡ (err x, v)
      → (m >>= f) w ≡ (err x, v)
  unfolding ◌>>=◌
  >>=-fail m f x w v e = rw e refl

module _ {A : Type 0} where
  pub on_error-return :
      (m : Exec A) (h : Error → Exec (Unit {0})) (a : A) (w v : World)
      → m w ≡ (ok a, v)
      → on_error m h w ≡ (ok a, v)
  unfolding on_error
  on_error-return m h a w v e = rw e refl

  pub on_error-fail :
      (m : Exec A) (h : Error → Exec (Unit {0})) (x : Error) (w v : World)
      → m w ≡ (err x, v)
      → on_error m h w ≡ (err x, (h x v).1)
  unfolding on_error
  on_error-fail m h x w v e = rw e refl

pub db_call-return :
    {A : Type 0} (f : Db → Result (A × Db)) (a : A) (d : Db) (w : World)
    → fails w.faults ≡ false
    → f w.db ≡ ok (a, d)
    → db_call f w ≡ (ok a, record w { db = d; faults = later w.faults })
unfolding db_call
db_call-return f a d w calm e = rw (calm, e) refl

pub request-return :
    (ev : Event) (e : Error) (w : World)
    → fails w.faults ≡ false
    → request ev e w ≡ (ok tt, record w { faults = later w.faults; log = ev ∷ w.log })
unfolding request
request-return ev e w calm = rw calm refl

pub request-fail :
    (ev : Event) (e : Error) (w : World)
    → fails w.faults ≡ true
    → request ev e w ≡ (err e, record w { faults = later w.faults; log = ev ∷ w.log })
unfolding request
request-fail ev e w bad = rw bad refl

-- A guard that lets the run go on.
pub guard-ok :
    (test : Bool) (e : Error) (w w' : World)
    → (if test then pure tt else raise e) w ≡ (ok tt, w')
    → (test ≡ true) × (w ≡ w')
unfolding pure raise
guard-ok true e w w' h = (refl, ground arith)
guard-ok false e w w' h = ground arith

pub veto-ok :
    (test : Bool) (e : Error) (w w' : World)
    → (if test then raise e else pure tt) w ≡ (ok tt, w')
    → (test ≡ false) × (w ≡ w')
unfolding pure raise
veto-ok true e w w' h = ground arith
veto-ok false e w w' h = (refl, ground arith)
