-- ===== src/Worker/Broker.antt =====
-- The task queue and the queue of dead letters, and what becomes of a delivery: internal/queue/rabbitmq.go
-- and `finalizeDelivery` in internal/worker/worker.go.
use casper_cloud.Prelude.{
  ℤ, pos, negsuc, ℕ, zero, suc, ◌-◌, ◌^◌, ◌%◌, ltb, leb, Bool, true, false, Option, none, some,
  List, [], ◌∷◌, ◌++◌, Text, if◌then◌else◌,
}
use casper_cloud.Data.{Error}
use casper_cloud.Exec.{fails, later}
use casper_cloud.Worker.Messages.{WireMessage, Codec}

-- `int32(n)`
unfoldable pub to_int32 : ℤ → ℤ
to_int32 z = signed (bits z)
  where
    bits : ℤ → ℕ
    bits (pos n) = n % 2 ^ 32
    bits (negsuc n) = 2 ^ 32 - 1 - n % 2 ^ 32

    signed : ℕ → ℤ
    signed w = if ltb w (2 ^ 31) then pos w else negsuc (2 ^ 32 - 1 - w)

abbrev pub increment : ℤ → ℤ
increment (pos n) = pos (suc n)
increment (negsuc zero) = pos 0
increment (negsuc (suc n)) = negsuc n

-- The value of `RetryHeaderKey`: one of the number types, or another type.
pub data HeaderValue : Type 0 where
  number : ℤ → HeaderValue
  other : HeaderValue

-- A message of a queue: the retry header, and the error of `x-caspercloud-dlq-reason`.
pub record Delivery : Type 0 where
  pub body : Text
  pub retry : Option HeaderValue
  pub reason : Option Error

-- `RetryCountFromHeaders`
unfoldable pub retry_count_from_headers : Option HeaderValue → ℤ
retry_count_from_headers none = pos 0
retry_count_from_headers (some (number z)) = z
retry_count_from_headers (some other) = pos 0

abbrev pub max_consecutive_failures : ℕ
max_consecutive_failures = 3

-- `prev >= queue.MaxConsecutiveFailures-1`
abbrev pub is_last_attempt : ℤ → Bool
is_last_attempt (pos n) = leb (max_consecutive_failures - 1) n
is_last_attempt (negsuc n) = false

-- The two queues, the deliveries that are neither acknowledged nor rejected, and which of the coming
-- calls of the broker fail.
pub record Broker : Type 0 where
  pub tasks : List Delivery
  pub dead : List Delivery
  pub unacked : List Delivery
  pub faults : List Bool

-- `d.Ack(false)`, whose failure is logged.
unfoldable pub ack : Delivery → Broker → Broker
ack d b =
    let b' = record b { faults = later b.faults } in
    if fails b.faults then record b' { unacked = d ∷ b.unacked } else b'

-- `d.Nack(false, true)`: back to the front of the queue; its failure is dropped.
unfoldable pub requeue : Delivery → Broker → Broker
requeue d b =
    let b' = record b { faults = later b.faults } in
    if fails b.faults
    then record b' { unacked = d ∷ b.unacked }
    else record b' { tasks = d ∷ b.tasks }

-- `d.Nack(false, false)`: the queue has no dead letter exchange, so the message is discarded.
unfoldable pub discard : Delivery → Broker → Broker
unfolding ack
discard d b = ack d b

-- `PublishTaskWithHeaders`, which encodes the message again.
unfoldable pub publish_with_headers : Delivery → Broker → Bool × Broker
publish_with_headers d b =
    let b' = record b { faults = later b.faults } in
    if fails b.faults then (false, b') else (true, record b' { tasks = b.tasks ++ d ∷ [] })

-- `PublishToDLQ`
unfoldable pub publish_to_dlq : Delivery → Broker → Bool × Broker
publish_to_dlq d b =
    let b' = record b { faults = later b.faults } in
    if fails b.faults then (false, b') else (true, record b' { dead = b.dead ++ d ∷ [] })

-- What follows a publishing: the old delivery is acknowledged, or goes back.
abbrev pub settle : Delivery → Bool × Broker → Broker
settle d (true, b) = ack d b
settle d (false, b) = requeue d b

abbrev pub retried : Codec → WireMessage → ℤ → Delivery
retried c m prev = record {
  body = c.encode m;
  retry = some (number (to_int32 (increment prev)));
  reason = none;
}

abbrev pub retry : Codec → Delivery → Option WireMessage → Broker → Broker
retry c d none b = discard d b
retry c d (some m) b =
    settle d (publish_with_headers (retried c m (retry_count_from_headers d.retry)) b)

unfoldable pub finalize_delivery : Codec → Delivery → Option Error → Broker → Broker
unfolding ack requeue discard publish_with_headers publish_to_dlq retry_count_from_headers to_int32
finalize_delivery c d none b = ack d b
finalize_delivery c d (some e) b =
    if is_last_attempt (retry_count_from_headers d.retry)
    then settle d (publish_to_dlq (record d { reason = some e }) b)
    else retry c d (c.decode d.body) b
