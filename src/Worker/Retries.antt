-- ===== src/Worker/Retries.antt =====
-- A message is tried three times at most.
use casper_cloud.Prelude.{
  ℤ, pos, negsuc, ◌≡◌, refl, ℕ, zero, suc, ◌+◌, ◌-◌, ◌*◌, ◌≤◌, ◌<◌, false, Option, none, some, List,
  [], ◌∷◌, ◌++◌, All, Text, length, arith, Bool-cases, inl, inr, subst,
}
use casper_cloud.Data.{Error}
use casper_cloud.Exec.{Exec}
use casper_cloud.Repository.Statement.{Done}
use casper_cloud.Worker.Messages.{Codec, WireMessage}
use casper_cloud.Worker.Broker.{
  Delivery, Broker, retry_count_from_headers, is_last_attempt, ack, discard, publish_to_dlq,
  publish_with_headers, retry, retried, finalize_delivery, to_int32,
}
use casper_cloud.Worker.Loop.{System, error_of, process_delivery, next_round, round, rounds}

-- The attempts that a delivery has left.
abbrev left_of : ℤ → ℕ
left_of (pos n) = suc (2 - n)
left_of (negsuc n) = n + 4

abbrev pub attempts_left : Delivery → ℕ
attempts_left d = left_of (retry_count_from_headers d.retry)

unfoldable pub total_attempts : List Delivery → ℕ
total_attempts [] = 0
total_attempts (d ∷ ds) = attempts_left d + total_attempts ds

-- The header counts no less than zero failures, as every header that the worker writes.
abbrev pub IsCount : ℤ → Type 0
IsCount (pos n) = Unit
IsCount (negsuc n) = ⊥

abbrev pub IsCounted : Delivery → Type 0
IsCounted d = IsCount (retry_count_from_headers d.retry)

total_attempts-++ :
    (ds : List Delivery) (d : Delivery)
    → total_attempts (ds ++ d ∷ []) ≡ total_attempts ds + attempts_left d
unfolding total_attempts
total_attempts-++ [] d = omega arith
total_attempts-++ (x ∷ ds) d = omega (arith, total_attempts-++ ds d)

All-append :
    (ds : List Delivery) (d : Delivery)
    → All IsCounted ds
    → IsCounted d
    → All IsCounted (ds ++ d ∷ [])
All-append [] d h k = (k, tt)
All-append (x ∷ ds) d h k = (h.0, All-append ds d h.1 k)

-- What one delivery costs when the broker answers every call.
abbrev Spent : Delivery → Broker → Broker → Type 0
Spent d b b' =
    (b'.faults ≡ [])
    × All IsCounted b'.tasks
    × (total_attempts b'.tasks < total_attempts b.tasks + attempts_left d)

retried-left :
    (c : Codec) (m : WireMessage) (z : ℤ)
    → IsCount z
    → is_last_attempt z ≡ false
    → IsCounted (retried c m z) × (attempts_left (retried c m z) < left_of z)
unfolding retry_count_from_headers to_int32
retried-left c m (pos zero) h e = (tt, omega arith)
retried-left c m (pos (suc zero)) h e = (tt, omega arith)
retried-left c m (pos (suc (suc n))) h e = ground arith
retried-left c m (negsuc n) h e = absurd h

attempts_left-pos : (z : ℤ) → 0 < left_of z
attempts_left-pos (pos n) = omega arith
attempts_left-pos (negsuc n) = omega arith

-- The message is published once more, with one attempt less than before.
retry-Spent :
    (c : Codec) (d : Delivery) (m : Option WireMessage) (b : Broker)
    → b.faults ≡ []
    → IsCounted d
    → is_last_attempt (retry_count_from_headers d.retry) ≡ false
    → All IsCounted b.tasks
    → Spent d b (retry c d m b)
unfolding ack discard publish_with_headers
retry-Spent c d none b h k l v =
    rw h (refl, v, omega (arith, attempts_left-pos (retry_count_from_headers d.retry)))
retry-Spent c d (some m) b h k l v =
    let (counted, less) = retried-left c m (retry_count_from_headers d.retry) k l in
    let d' = retried c m (retry_count_from_headers d.retry) in
    rw h (refl, All-append b.tasks d' v counted, omega (arith, less, total_attempts-++ b.tasks d'))

finalize-Spent :
    (c : Codec) (d : Delivery) (e : Option Error) (b : Broker)
    → b.faults ≡ []
    → IsCounted d
    → All IsCounted b.tasks
    → Spent d b (finalize_delivery c d e b)
unfolding finalize_delivery ack publish_to_dlq
finalize-Spent c d none b h k v =
    rw h (refl, v, omega (arith, attempts_left-pos (retry_count_from_headers d.retry)))
finalize-Spent c d (some e) b h k v =
    elim (Bool-cases (is_last_attempt (retry_count_from_headers d.retry))) [
      | inl t ↦
          rw (t, h) (refl, v, omega (arith, attempts_left-pos (retry_count_from_headers d.retry)))
      | inr t ↦ rw t (retry-Spent c d (c.decode d.body) b h k t v)
    ]

-- The broker answers every call, and every header of the queue is one that the worker writes.
pub record Calm (b : Broker) : Type 0 where
  pub no_faults : b.faults ≡ []
  pub counted : All IsCounted b.tasks

no_attempts : (ds : List Delivery) → total_attempts ds ≤ 0 → ds ≡ []
unfolding total_attempts
no_attempts [] l = refl
no_attempts (d ∷ ds) l = ground (arith, attempts_left-pos (retry_count_from_headers d.retry))

left_of-bound : (z : ℤ) → IsCount z → left_of z ≤ 3
left_of-bound (pos n) h = omega arith
left_of-bound (negsuc n) h = absurd h

three_each : (ds : List Delivery) → All IsCounted ds → total_attempts ds ≤ 3 * length ds
unfolding total_attempts
three_each [] h = omega arith
three_each (d ∷ ds) h =
    omega (arith, left_of-bound (retry_count_from_headers d.retry) h.0, three_each ds h.1)

module _ (c : Codec) (handle : Text → Exec Done) where
  process-Spent :
      (d : Delivery) (s : System)
      → s.broker.faults ≡ []
      → IsCounted d
      → All IsCounted s.broker.tasks
      → Spent d s.broker (process_delivery c handle d s).broker
  unfolding process_delivery
  process-Spent d s h k v =
      let (r, w) = handle d.body s.world in finalize-Spent c d (error_of r) s.broker h k v

  next-Calm :
      (ds : List Delivery) (n : ℕ) (s : System)
      → s.broker.tasks ≡ ds
      → Calm s.broker
      → total_attempts ds ≤ suc n
      → Calm (next_round c handle ds s).broker
        × (total_attempts (next_round c handle ds s).broker.tasks ≤ n)
  unfolding total_attempts
  next-Calm [] n s e h l = (h, rw e (omega arith))
  next-Calm (d ∷ ds) n s e h l =
      let (k, v) = subst (All IsCounted) e h.counted in
      let s' : System = record { world = s.world; broker = record s.broker { tasks = ds } } in
      let (none_left, counted, less) = process-Spent d s' h.no_faults k v in
      (record { no_faults = none_left; counted = counted }, omega (arith, less))

  drained_by :
      (n : ℕ) (s : System)
      → Calm s.broker
      → total_attempts s.broker.tasks ≤ n
      → (rounds c handle n s).broker.tasks ≡ []
  unfolding rounds round
  drained_by zero s h l = no_attempts s.broker.tasks l
  drained_by (suc n) s h l =
      let (calm, less) = next-Calm s.broker.tasks n s refl h l in
      drained_by n (next_round c handle s.broker.tasks s) calm less

-- Whatever the handler does with the messages, and however often it fails: when the broker answers
-- every call and the headers count no less than zero failures, the queue of tasks is empty after as
-- many rounds as its deliveries have attempts left, at most three for each.
pub rounds_drain :
    (c : Codec) (handle : Text → Exec Done) (s : System)
    → Calm s.broker
    → ((rounds c handle (total_attempts s.broker.tasks) s).broker.tasks ≡ [])
      × (total_attempts s.broker.tasks ≤ 3 * length s.broker.tasks)
unfolding total_attempts
rounds_drain c handle s h = (
  drained_by c handle (total_attempts s.broker.tasks) s h (omega arith),
  three_each s.broker.tasks h.counted,
)
