-- ===== src/Exec/Keeps.antt =====
-- Properties of the database that a run keeps, whether it returns or fails, and whichever calls fail:
-- one rule for each way to build a run.
use casper_cloud.Prelude.{
  ◌≡◌, refl, Bool, true, false, Option, none, some, if◌then◌else◌, Bool-cases, inl, inr,
}
use casper_cloud.Data.{Error, Db, TaskMessage}
use casper_cloud.Exec.{
  Result, ok, err, Event, World, Exec, fails, later, pure, raise, or_raise, commit, db_call,
  recover, on_error, ignore, request, publish_task, continue, ◌>>=◌,
}

-- `m` keeps `P`.
pub record Keeps {A : Type 0} (P : Db → Type 0) (m : Exec A) : Type 0 where
  pub at : (w : World) → P w.db → P (m w).1.db

-- A statement or a transaction leaves `P` true if it is done.
abbrev pub Kept : {A : Type 0} → (Db → Type 0) → Result (A × Db) → Type 0
Kept P (ok (a, d)) = P d
Kept P (err e) = Unit

Kept-commit :
    {A : Type 0} (P : Db → Type 0) (r : Result (A × Db)) (w : World)
    → P w.db
    → Kept P r
    → P (commit r w).1.db
Kept-commit P (ok (a, d)) w h k = k
Kept-commit P (err e) w h k = h

module _ {A : Type 0} {P : Db → Type 0} where
  pub Keeps-raise : (e : Error) → Keeps P (raise {A = A} e)
  unfolding raise
  Keeps-raise e = record { at = λ _ h. h }

  pub Keeps-pure : (a : A) → Keeps P (pure a)
  unfolding pure
  Keeps-pure a = record { at = λ _ h. h }

  pub Keeps-or_raise : (o : Option A) (e : Error) → Keeps P (or_raise o e)
  Keeps-or_raise none e = Keeps-raise e
  Keeps-or_raise (some a) e = Keeps-pure a

  pub Keeps-db_call :
      (f : Db → Result (A × Db)) → ((d : Db) → P d → Kept P (f d)) → Keeps P (db_call f)
  unfolding db_call
  Keeps-db_call f k = record {
    at = λ w h. elim (Bool-cases (fails w.faults)) [
      | inl t ↦ rw t h
      | inr t ↦ rw t (Kept-commit P (f w.db) (record w { faults = later w.faults }) h (k w.db h))
    ];
  }

  Keeps-recover :
      (h : Error → Exec (Unit {0})) (r : Result A) (w : World)
      → ((e : Error) → Keeps P (h e))
      → P w.db
      → P (recover h r w).1.db
  Keeps-recover h (ok a) w k v = v
  Keeps-recover h (err e) w k v = (k e).at w v

  pub Keeps-on_error :
      (m : Exec A) (h : Error → Exec (Unit {0}))
      → Keeps P m
      → ((e : Error) → Keeps P (h e))
      → Keeps P (on_error m h)
  unfolding on_error
  Keeps-on_error m h km kh = record {
    at = λ w v. let (r, w') = m w in Keeps-recover h r w' kh (km.at w v);
  }

  pub Keeps-ignore : (m : Exec A) → Keeps P m → Keeps P (ignore m)
  unfolding ignore
  Keeps-ignore m km = record { at = λ w v. km.at w v }

  -- Each branch may use what the test says.
  pub Keeps-if :
      (test : Bool) (m n : Exec A)
      → (test ≡ true → Keeps P m)
      → (test ≡ false → Keeps P n)
      → Keeps P (if test then m else n)
  Keeps-if false m n on_yes on_no = on_no refl
  Keeps-if true m n on_yes on_no = on_yes refl

module _ {P : Db → Type 0} where
  pub Keeps-request : (ev : Event) (e : Error) → Keeps P (request ev e)
  unfolding request
  Keeps-request ev e = record {
    at = λ w h. elim (Bool-cases (fails w.faults)) [ inl t ↦ rw t h | inr t ↦ rw t h ];
  }

  pub Keeps-publish_task : (msg : TaskMessage) → Keeps P (publish_task msg)
  unfolding publish_task
  Keeps-publish_task msg = record {
    at = λ w h. elim (Bool-cases (fails w.faults)) [ inl t ↦ rw t h | inr t ↦ rw t h ];
  }

module _ {A B : Type 0} {P : Db → Type 0} where
  Keeps-continue :
      (r : Result A) (f : A → Exec B) (w : World)
      → ((a : A) → Keeps P (f a))
      → P w.db
      → P (continue r f w).1.db
  Keeps-continue (ok a) f w k v = (k a).at w v
  Keeps-continue (err e) f w k v = v

  pub Keeps-bind :
      (m : Exec A) (f : A → Exec B) → Keeps P m → ((a : A) → Keeps P (f a)) → Keeps P (m >>= f)
  unfolding ◌>>=◌
  Keeps-bind m f km kf = record {
    at = λ w v. let (r, w') = m w in Keeps-continue r f w' kf (km.at w v);
  }

  -- The rest of the run may use what the statement tells of its result.
  pub Keeps-bind-db_call :
      (f : Db → Result (A × Db)) (k : A → Exec B) (Q : A → Type 0)
      → ((d : Db) → P d → Kept P (f d))
      → ((d : Db) (a : A) (d' : Db) → P d → f d ≡ ok (a, d') → Q a)
      → ((a : A) → Q a → Keeps P (k a))
      → Keeps P (db_call f >>= k)
  unfolding ◌>>=◌ db_call
  Keeps-bind-db_call f k Q keep fact rest = record {
    at = λ w h. elim (Bool-cases (fails w.faults)) [
      | inl t ↦ rw t h
      | inr t ↦ rw t (go w h (f w.db) refl (keep w.db h))
    ];
  }
    where
      go :
          (w : World)
          → P w.db
          → (r : Result (A × Db)) → f w.db ≡ r
          → Kept P r
          → P
              (continue
                (commit r (record w { faults = later w.faults })).0
                k
                (commit r (record w { faults = later w.faults })).1).1.db
      go w h (ok (a, d)) e v =
          (rest a (fact w.db a d h e)).at (record w { db = d; faults = later w.faults }) v
      go w h (err x) e v = h

  -- The rest of the run may use that there is a value.
  pub Keeps-bind-or_raise :
      (o : Option A) (e : Error) (k : A → Exec B)
      → ((a : A) → o ≡ some a → Keeps P (k a))
      → Keeps P (or_raise o e >>= k)
  unfolding ◌>>=◌ raise pure
  Keeps-bind-or_raise none e k rest = record { at = λ _ h. h }
  Keeps-bind-or_raise (some a) e k rest = record { at = λ w h. (rest a refl).at w h }

abbrev pub Answers : {A : Type 0} → (A → Type 0) → Result A → Type 0
Answers Q (ok a) = Q a
Answers Q (err e) = Unit

-- `m` keeps `P`, and what it returns has `Q`.
pub record Gives {A : Type 0} (P : Db → Type 0) (Q : A → Type 0) (m : Exec A) : Type 0 where
  pub at : (w : World) → P w.db → P (m w).1.db × Answers Q (m w).0

module _ {A : Type 0} {P : Db → Type 0} {Q : A → Type 0} where
  pub Gives-db_call :
      (f : Db → Result (A × Db))
      → ((d : Db) → P d → Kept P (f d))
      → ((d : Db) (a : A) (d' : Db) → P d → f d ≡ ok (a, d') → Q a)
      → Gives P Q (db_call f)
  unfolding db_call
  Gives-db_call f keep fact = record {
    at = λ w h. elim (Bool-cases (fails w.faults)) [
      | inl t ↦ rw t (h, tt)
      | inr t ↦ rw t (go w h (f w.db) refl (keep w.db h))
    ];
  }
    where
      go :
          (w : World)
          → P w.db
          → (r : Result (A × Db)) → f w.db ≡ r
          → Kept P r
          → P (commit r (record w { faults = later w.faults })).1.db
            × Answers Q (commit r (record w { faults = later w.faults })).0
      go w h (ok (a, d)) e v = (v, fact w.db a d h e)
      go w h (err x) e v = (h, tt)

  pub Gives-if :
      (test : Bool) (m n : Exec A) → Gives P Q m → Gives P Q n → Gives P Q (if test then m else n)
  Gives-if false m n k l = l
  Gives-if true m n k l = k

module _ {A B : Type 0} {P : Db → Type 0} where
  pub Gives-bind :
      (Q : B → Type 0) (m : Exec A) (f : A → Exec B)
      → Keeps P m
      → ((a : A) → Gives P Q (f a))
      → Gives P Q (m >>= f)
  unfolding ◌>>=◌
  Gives-bind Q m f km gf = record { at = λ w v. go (m w).0 (m w).1 (km.at w v) }
    where
      go :
          (r : Result A) (w : World)
          → P w.db
          → P (continue r f w).1.db × Answers Q (continue r f w).0
      go (ok a) w h = (gf a).at w h
      go (err e) w h = (h, tt)

  pub Keeps-bind-Gives :
      (Q : A → Type 0) (m : Exec A) (f : A → Exec B)
      → Gives P Q m
      → ((a : A) → Q a → Keeps P (f a))
      → Keeps P (m >>= f)
  unfolding ◌>>=◌
  Keeps-bind-Gives Q m f gm kf = record {
    at = λ w v. let (h, k) = gm.at w v in go (m w).0 (m w).1 h k;
  }
    where
      go : (r : Result A) (w : World) → P w.db → Answers Q r → P (continue r f w).1.db
      go (ok a) w h k = (kf a k).at w h
      go (err e) w h k = h

pub ruleset keeps_rules = (
  Keeps-pure, Keeps-raise, Keeps-or_raise, Keeps-on_error, Keeps-ignore, Keeps-if, Keeps-request,
  Keeps-publish_task, Keeps-bind,
)
