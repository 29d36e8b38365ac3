-- ===== src/Worker/Conserved.antt =====
-- A message is not lost: what the worker and a failing broker do with a task that fails.
use casper_cloud.Prelude.{
  arith, ◌≡◌, ◌∙◌, refl, ℕ, zero, suc, Option, none, some, List, [], ◌∷◌, ◌++◌, Text, Bool-cases,
  ◌⊎◌, inl, inr, subst,
}
use casper_cloud.Data.{Error}
use casper_cloud.Exec.{World, Exec, fails, later}
use casper_cloud.Repository.Statement.{Done}
use casper_cloud.Worker.Messages.{Codec, CodecLaws, WireMessage}
use casper_cloud.Worker.Broker.{
  Delivery, Broker, retry_count_from_headers, is_last_attempt, ack, requeue, discard,
  publish_to_dlq, publish_with_headers, settle, retry, retried, finalize_delivery,
}
use casper_cloud.Worker.Loop.{System, error_of, process_delivery, next_round, round, rounds}

module _ (c : Codec) (m : WireMessage) where
  -- The delivery carries the message.
  abbrev Carries : Delivery → Type 0
  Carries d = c.decode d.body ≡ some m

  abbrev Among : List Delivery → Type 0
  Among [] = ⊥
  Among (d ∷ ds) = Carries d ⊎ Among ds

  -- The message is in one of the queues, or is delivered again by the broker.
  abbrev pub IsHeld : Broker → Type 0
  IsHeld b = Among b.tasks ⊎ (Among b.dead ⊎ Among b.unacked)

  Among-append : (ds : List Delivery) (d : Delivery) → Among ds → Among (ds ++ d ∷ [])
  Among-append [] d h = absurd h
  Among-append (x ∷ ds) d (inl h) = inl h
  Among-append (x ∷ ds) d (inr h) = inr (Among-append ds d h)

  Among-last : (ds : List Delivery) (d : Delivery) → Carries d → Among (ds ++ d ∷ [])
  Among-last [] d h = inl h
  Among-last (x ∷ ds) d h = inr (Among-last ds d h)

  IsHeld-ack : (d : Delivery) (b : Broker) → IsHeld b → IsHeld (ack d b)
  unfolding ack
  IsHeld-ack d b h = elim (Bool-cases (fails b.faults)) [ inl t ↦ rw t (kept h) | inr t ↦ rw t h ]
    where
      kept : IsHeld b → IsHeld (record b { unacked = d ∷ b.unacked })
      kept (inl k) = inl k
      kept (inr (inl k)) = inr (inl k)
      kept (inr (inr k)) = inr (inr (inr k))

  IsHeld-requeue : (d : Delivery) (b : Broker) → IsHeld b → IsHeld (requeue d b)
  unfolding requeue
  IsHeld-requeue d b h = elim (Bool-cases (fails b.faults)) [
    | inl t ↦ rw t (kept h)
    | inr t ↦ rw t (back h)
  ]
    where
      kept : IsHeld b → IsHeld (record b { unacked = d ∷ b.unacked })
      kept (inl k) = inl k
      kept (inr (inl k)) = inr (inl k)
      kept (inr (inr k)) = inr (inr (inr k))

      back : IsHeld b → IsHeld (record b { tasks = d ∷ b.tasks })
      back (inl k) = inl (inr k)
      back (inr k) = inr k

  -- A delivery that goes back is held.
  requeue-IsHeld : (d : Delivery) (b : Broker) → Carries d → IsHeld (requeue d b)
  unfolding requeue
  requeue-IsHeld d b h = elim (Bool-cases (fails b.faults)) [
    | inl t ↦ rw t (inr (inr (inl h)))
    | inr t ↦ rw t (inl (inl h))
  ]

  IsHeld-dead :
      (d : Delivery) (b : Broker)
      → Carries d ⊎ IsHeld b
      → IsHeld (record b { dead = b.dead ++ d ∷ [] })
  IsHeld-dead d b (inl k) = inr (inl (Among-last b.dead d k))
  IsHeld-dead d b (inr (inl k)) = inl k
  IsHeld-dead d b (inr (inr (inl k))) = inr (inl (Among-append b.dead d k))
  IsHeld-dead d b (inr (inr (inr k))) = inr (inr k)

  IsHeld-tasks :
      (d : Delivery) (b : Broker)
      → Carries d ⊎ IsHeld b
      → IsHeld (record b { tasks = b.tasks ++ d ∷ [] })
  IsHeld-tasks d b (inl k) = inl (Among-last b.tasks d k)
  IsHeld-tasks d b (inr (inl k)) = inl (Among-append b.tasks d k)
  IsHeld-tasks d b (inr (inr k)) = inr k

  requeue-either : (d : Delivery) (b : Broker) → Carries d ⊎ IsHeld b → IsHeld (requeue d b)
  requeue-either d b (inl k) = requeue-IsHeld d b k
  requeue-either d b (inr k) = IsHeld-requeue d b k

  -- A published copy stands for the delivery, which goes back if the publishing fails.
  settle-dead :
      (d d' : Delivery) (b : Broker)
      → (Carries d → Carries d')
      → Carries d ⊎ IsHeld b
      → IsHeld (settle d (publish_to_dlq d' b))
  unfolding publish_to_dlq
  settle-dead d d' b same h = elim (Bool-cases (fails b.faults)) [
    | inl t ↦ rw t (requeue-either d (record b { faults = later b.faults }) h)
    | inr t ↦ rw t (
        IsHeld-ack d (record b { faults = later b.faults; dead = b.dead ++ d' ∷ [] })
          (IsHeld-dead d' (record b { faults = later b.faults })
            (elim h [ inl k ↦ inl (same k) | inr k ↦ inr k ])))
  ]

  settle-tasks :
      (d d' : Delivery) (b : Broker)
      → (Carries d → Carries d')
      → Carries d ⊎ IsHeld b
      → IsHeld (settle d (publish_with_headers d' b))
  unfolding publish_with_headers
  settle-tasks d d' b same h = elim (Bool-cases (fails b.faults)) [
    | inl t ↦ rw t (requeue-either d (record b { faults = later b.faults }) h)
    | inr t ↦ rw t (
        IsHeld-ack d (record b { faults = later b.faults; tasks = b.tasks ++ d' ∷ [] })
          (IsHeld-tasks d' (record b { faults = later b.faults })
            (elim h [ inl k ↦ inl (same k) | inr k ↦ inr k ])))
  ]

  -- A message that cannot be decoded is not the one that is carried.
  retry-IsHeld :
      (laws : CodecLaws c) (d : Delivery) (o : Option WireMessage) (b : Broker)
      → o ≡ c.decode d.body
      → Carries d ⊎ IsHeld b
      → IsHeld (retry c d o b)
  unfolding discard
  retry-IsHeld laws d none b e (inl k) = ground (arith, e ∙ k)
  retry-IsHeld laws d none b e (inr k) = IsHeld-ack d b k
  retry-IsHeld laws d (some x) b e h =
      settle-tasks d (retried c x (retry_count_from_headers d.retry)) b
        (λ k. laws.decode-encode x ∙ e ∙ k) h

  -- A delivery whose task failed leaves a message held, its own and any other.
  failed-IsHeld :
      (laws : CodecLaws c) (d : Delivery) (x : Error) (b : Broker)
      → Carries d ⊎ IsHeld b
      → IsHeld (finalize_delivery c d (some x) b)
  unfolding finalize_delivery
  failed-IsHeld laws d x b h =
      elim (Bool-cases (is_last_attempt (retry_count_from_headers d.retry))) [
        | inl t ↦ rw t (settle-dead d (record d { reason = some x }) b (λ k. k) h)
        | inr t ↦ rw t (retry-IsHeld laws d (c.decode d.body) b refl h)
      ]

  -- The handler fails on every delivery that carries the message.
  abbrev pub AlwaysFails : (Text → Exec Done) → Type 0
  AlwaysFails handle =
      (t : Text) (w : World)
      → c.decode t ≡ some m
      → (e : Error) × (error_of (handle t w).0 ≡ some e)

  finalize-IsHeld :
      (laws : CodecLaws c) (d : Delivery) (o : Option Error) (b : Broker)
      → (Carries d → (e : Error) × (o ≡ some e))
      → Carries d ⊎ IsHeld b
      → IsHeld (finalize_delivery c d o b)
  unfolding finalize_delivery
  finalize-IsHeld laws d none b f (inl k) = ground (arith, (f k).1)
  finalize-IsHeld laws d none b f (inr k) = IsHeld-ack d b k
  finalize-IsHeld laws d (some e) b f h = failed-IsHeld laws d e b h

  module _ (handle : Text → Exec Done) where
    next-IsHeld :
        (laws : CodecLaws c) (fails_on : AlwaysFails handle) (ds : List Delivery) (s : System)
        → s.broker.tasks ≡ ds
        → IsHeld s.broker
        → IsHeld (next_round c handle ds s).broker
    unfolding process_delivery
    next-IsHeld laws fails_on [] s e h = h
    next-IsHeld laws fails_on (d ∷ ds) s e h =
        finalize-IsHeld laws d (error_of (handle d.body s.world).0) (record s.broker { tasks = ds })
          (λ k. fails_on d.body s.world k) (taken h)
      where
        first : Among (d ∷ ds) → Carries d ⊎ IsHeld (record s.broker { tasks = ds })
        first (inl k) = inl k
        first (inr k) = inr (inl k)

        taken : IsHeld s.broker → Carries d ⊎ IsHeld (record s.broker { tasks = ds })
        taken (inl k) = first (subst Among e k)
        taken (inr k) = inr (inr k)

    rounds-IsHeld :
        (laws : CodecLaws c) (fails_on : AlwaysFails handle) (n : ℕ) (s : System)
        → IsHeld s.broker
        → IsHeld (rounds c handle n s).broker
    unfolding rounds round
    rounds-IsHeld laws fails_on zero s h = h
    rounds-IsHeld laws fails_on (suc n) s h =
        rounds-IsHeld laws fails_on n (next_round c handle s.broker.tasks s)
          (next-IsHeld laws fails_on s.broker.tasks s refl h)

-- A task whose handler always fails is never lost, whichever calls of the broker fail: after any number
-- of rounds its message is still in the queue of tasks, in that of dead letters, or not acknowledged.
pub rounds_conserve :
    (c : Codec) (laws : CodecLaws c) (m : WireMessage) (handle : Text → Exec Done) (n : ℕ)
    (s : System)
    → AlwaysFails c m handle
    → IsHeld c m s.broker
    → IsHeld c m (rounds c handle n s).broker
rounds_conserve c laws m handle n s f h = rounds-IsHeld c m handle laws f n s h
