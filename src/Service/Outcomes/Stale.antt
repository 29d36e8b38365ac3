-- ===== src/Service/Outcomes/Stale.antt =====
-- What the sweep of stale tasks leaves.
use casper_cloud.Prelude.{
  ◌≡◌, refl, ◌⊎◌, inl, inr, ◌+◌, ◌*◌, ◌<◌, suc, ℕ, Bool, true, false, List, [], ◌∷◌, select, exists,
  update, count, Option, none, some, Bool-cases, arith, ap, ltb, ◌==◌, ==_eq, ◌&&◌, points_to,
}
use casper_cloud.Data.{Uuid, Seconds, stale_running, InstanceState, TaskStatus, Task, Instance, Db}
use casper_cloud.Exec.{ok}
use casper_cloud.Repository.Tasks.{
  stale_after, is_stale, has_timed_out, reconcile_stale_running_tasks,
}

-- `R` holds of the rows at each place of two tables of one length.
abbrev pub Rowwise : {A : Type 0} → (A → A → Type 0) → List A → List A → Type 0
Rowwise R [] [] = Unit
Rowwise R [] (y ∷ ys) = ⊥
Rowwise R (x ∷ xs) [] = ⊥
Rowwise R (x ∷ xs) (y ∷ ys) = R x y × Rowwise R xs ys

abbrev pub Some : {A : Type 0} → (A → Type 0) → List A → Type 0
Some P [] = ⊥
Some P (x ∷ xs) = P x ⊎ Some P xs

-- `n` rows have `P`.
abbrev pub Counts : {A : Type 0} → (A → Type 0) → List A → ℕ → Type 0
Counts P [] n = n ≡ 0
Counts P (x ∷ xs) n = (P x × (m : ℕ) × (n ≡ suc m) × Counts P xs m) ⊎ ((¬ P x) × Counts P xs n)

-- A row with `P` is changed by `f`, and any other stays.
abbrev pub ChangedIf : {A : Type 0} → (A → Type 0) → (A → A) → A → A → Type 0
ChangedIf P f x y = (P x × (y ≡ f x)) ⊎ ((¬ P x) × (y ≡ x))

-- A task that is running, and was not changed in the last 30 minutes.
abbrev pub TimedOut : Seconds → Task → Type 0
TimedOut now r = (r.status ≡ TaskStatus.running) × (r.updated_at + 30 * 60 < now)

-- An instance with such a task, of its own project.
abbrev pub Stuck : Seconds → List Task → Instance → Type 0
Stuck now ts i =
    Some (λ r. TimedOut now r × (r.project_id ≡ i.project_id) × (r.instance_id ≡ some i.id)) ts

abbrev pub failed_at : Seconds → Task → Task
failed_at now r = record r {
  status = TaskStatus.failed;
  error = some stale_running;
  updated_at = now;
}

abbrev pub error_at : Seconds → Instance → Instance
error_at now r = record r { state = InstanceState.error; updated_at = now }

module _ {A : Type 0} (P : A → Type 0) (g : A → Bool) (yes : (a : A) → g a ≡ true → P a)
    (no : (a : A) → g a ≡ false → ¬ P a) where
  Rowwise-update : (f : A → A) (xs : List A) → Rowwise (ChangedIf P f) xs (update g f xs)
  unfolding update
  Rowwise-update f [] = tt
  Rowwise-update f (x ∷ xs) = elim (Bool-cases (g x)) [
    | inl t ↦ rw t (inl (yes x t, refl), Rowwise-update f xs)
    | inr t ↦ rw t (inr (no x t, refl), Rowwise-update f xs)
  ]

  Counts-count : (xs : List A) → Counts P xs (count g xs)
  unfolding count
  Counts-count [] = refl
  Counts-count (x ∷ xs) = elim (Bool-cases (g x)) [
    | inl t ↦ rw t (inl (yes x t, count g xs, refl, Counts-count xs))
    | inr t ↦ rw t (inr (no x t, Counts-count xs))
  ]

is_stale-TimedOut : (now : Seconds) (r : Task) → is_stale now r ≡ true → TimedOut now r
unfolding is_stale
is_stale-TimedOut now r e = go r.status e
  where
    go :
        (s : TaskStatus)
        → elim s as (λ _. Bool) [
          | TaskStatus.running ↦ ltb (r.updated_at + stale_after) now
          | _ ↦ false
        ]
          ≡ true
        → (s ≡ TaskStatus.running) × (r.updated_at + 30 * 60 < now)
    go TaskStatus.pending e' = ground arith
    go TaskStatus.running e' = (refl, ground arith)
    go TaskStatus.failed e' = ground arith
    go TaskStatus.succeeded e' = ground arith

not_TimedOut : (now : Seconds) (r : Task) → is_stale now r ≡ false → ¬ TimedOut now r
unfolding is_stale
not_TimedOut now r e (s, h) = ground (arith, (rw s at e))

points_to-some : (o : Option Uuid) (i : Uuid) → points_to o i ≡ true → o ≡ some i
points_to-some none i e = ground arith
points_to-some (some j) i e = ap some (==_eq j i e)

-- The row joins the instance.
abbrev joins : Instance → Task → Bool
joins i r = i.project_id == r.project_id && points_to r.instance_id i.id

joins-eq :
    (i : Instance) (r : Task)
    → joins i r ≡ true
    → (r.project_id ≡ i.project_id) × (r.instance_id ≡ some i.id)
joins-eq i r e = (ground arith, points_to-some r.instance_id i.id (ground arith))

eq-joins :
    (i : Instance) (r : Task)
    → r.project_id ≡ i.project_id
    → r.instance_id ≡ some i.id
    → joins i r ≡ true
eq-joins i r e f = rw (e, f) (ground arith)

has_timed_out-Stuck :
    (now : Seconds) (i : Instance) (ts : List Task)
    → has_timed_out (select (is_stale now) ts) i ≡ true
    → Stuck now ts i
unfolding has_timed_out exists select
has_timed_out-Stuck now i [] e = ground arith
has_timed_out-Stuck now i (r ∷ ts) e = elim (Bool-cases (is_stale now r)) [
  | inl t ↦ elim (Bool-cases (joins i r)) [
    | inl u ↦ let (mine, its) = joins-eq i r u in inl (is_stale-TimedOut now r t, mine, its)
    | inr u ↦ inr (has_timed_out-Stuck now i ts (rw (t, u) at e))
  ]
  | inr t ↦ inr (has_timed_out-Stuck now i ts (rw t at e))
]

not_Stuck :
    (now : Seconds) (i : Instance) (ts : List Task)
    → has_timed_out (select (is_stale now) ts) i ≡ false
    → ¬ Stuck now ts i
unfolding has_timed_out exists select
not_Stuck now i [] e k = k
not_Stuck now i (r ∷ ts) e (inl (late, mine, its)) = elim (Bool-cases (is_stale now r)) [
  | inl t ↦ ground (arith, (rw (t, eq-joins i r mine its) at e))
  | inr t ↦ not_TimedOut now r t late
]
not_Stuck now i (r ∷ ts) e (inr k) = elim (Bool-cases (is_stale now r)) [
  | inl t ↦ elim (Bool-cases (joins i r)) [
    | inl u ↦ ground (arith, (rw (t, u) at e))
    | inr u ↦ not_Stuck now i ts (rw (t, u) at e) k
  ]
  | inr t ↦ not_Stuck now i ts (rw t at e) k
]

-- The sweep never fails: it changes exactly the tasks that are running and were not changed in the last
-- 30 minutes, which then have failed with that reason, and exactly the instances with such a task of
-- their project, which are then in the state "error"; it gives the number of those instances, and
-- changes no other table.
pub reconcile_stale_running_tasks_done :
    (d : Db)
    → (n : ℕ) × (d' : Db) × (reconcile_stale_running_tasks d ≡ ok (n, d'))
      × Rowwise (ChangedIf (TimedOut d.now) (failed_at d.now)) d.tasks d'.tasks
      × Rowwise (ChangedIf (Stuck d.now d.tasks) (error_at d.now)) d.instances d'.instances
      × Counts (Stuck d.now d.tasks) d.instances n
      × (d' ≡ record d { tasks = d'.tasks; instances = d'.instances })
unfolding reconcile_stale_running_tasks
reconcile_stale_running_tasks_done d =
    let g = has_timed_out (select (is_stale d.now) d.tasks) in
    (
      count g d.instances,
      record d {
        tasks = update (is_stale d.now) (failed_at d.now) d.tasks;
        instances = update g (error_at d.now) d.instances;
      },
      refl,
      Rowwise-update (TimedOut d.now) (is_stale d.now) (is_stale-TimedOut d.now)
          (not_TimedOut d.now) (failed_at d.now) d.tasks,
      Rowwise-update (Stuck d.now d.tasks) g (λ i. has_timed_out-Stuck d.now i d.tasks)
          (λ i. not_Stuck d.now i d.tasks) (error_at d.now) d.instances,
      Counts-count (Stuck d.now d.tasks) g (λ i. has_timed_out-Stuck d.now i d.tasks)
          (λ i. not_Stuck d.now i d.tasks) d.instances,
      refl,
    )
