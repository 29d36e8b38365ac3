-- ===== src/Worker/Loop.antt =====
-- `processDelivery` and the loop of `Run` in internal/worker/worker.go.
use casper_cloud.Prelude.{ℕ, zero, suc, Option, none, some, List, [], ◌∷◌, Text}
use casper_cloud.Data.{Error}
use casper_cloud.Exec.{Result, ok, err, World, Exec}
use casper_cloud.Repository.Statement.{Done}
use casper_cloud.Worker.Messages.{Codec}
use casper_cloud.Worker.Broker.{Delivery, Broker, finalize_delivery}

pub record System : Type 0 where
  pub world : World
  pub broker : Broker

abbrev pub error_of : Result Done → Option Error
error_of (ok tt) = none
error_of (err e) = some e

module _ (c : Codec) (handle : Text → Exec Done) where
  -- The delivery was taken from the queue.
  unfoldable pub process_delivery : Delivery → System → System
  process_delivery d s =
      let (r, w) = handle d.body s.world in
      record { world = w; broker = finalize_delivery c d (error_of r) s.broker }

  abbrev pub next_round : List Delivery → System → System
  next_round [] s = s
  next_round (d ∷ ds) s =
      process_delivery d (record { world = s.world; broker = record s.broker { tasks = ds } })

  -- One round of the loop; with an empty queue the worker waits.
  unfoldable pub round : System → System
  unfolding process_delivery
  round s = next_round s.broker.tasks s

  unfoldable pub rounds : ℕ → System → System
  unfolding round
  rounds zero s = s
  rounds (suc n) s = rounds n (round s)
