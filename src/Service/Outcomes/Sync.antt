-- ===== src/Service/Outcomes/Sync.antt =====
-- The rounds of the state updates, and the states after a sync.
use casper_cloud.Prelude.{◌≡◌, ◌∙◌, refl, ap, ℕ, zero, suc, ◌≤◌, List, [], ◌∷◌, length, arith}
use casper_cloud.Data.{Db}
use casper_cloud.Exec.{World, ok, fails, later, pure}
use casper_cloud.Exec.Success.{>>=-return, db_call-return}
use casper_cloud.Repository.Instances.{InstanceStateUpdate, apply_batch, apply_state_update}
use casper_cloud.Service.Sync.{take, drop, send_batch, batch_rounds, batch_update_instance_states}

apply_batch-take-drop :
    (n : ℕ) (us : List InstanceStateUpdate) (d : Db)
    → apply_batch (drop n us) (apply_batch (take n us) d) ≡ apply_batch us d
unfolding apply_batch take drop
apply_batch-take-drop zero us d = refl
apply_batch-take-drop (suc n) [] d = refl
apply_batch-take-drop (suc n) (u ∷ us) d = apply_batch-take-drop n us (apply_state_update u d)

length-drop : (n : ℕ) (us : List InstanceStateUpdate) → length (drop n us) ≤ length us
unfolding drop
length-drop zero us = omega arith
length-drop (suc n) [] = omega arith
length-drop (suc n) (u ∷ us) = omega (arith, length-drop n us)

send_batch-ok :
    (us : List InstanceStateUpdate) (d : Db) → send_batch us d ≡ ok (tt, apply_batch us d)
unfolding send_batch
send_batch-ok us d = refl

batch_rounds-apply_batch :
    (n fuel : ℕ) (us : List InstanceStateUpdate) (w : World)
    → length us ≤ fuel
    → w.faults ≡ []
    → let (r, w') = batch_rounds (suc n) fuel us w in
      (r ≡ ok tt) × (w'.db ≡ apply_batch us w.db) × (w'.log ≡ w.log) × (w'.queue ≡ w.queue)
unfolding batch_rounds pure apply_batch
batch_rounds-apply_batch n zero [] w enough calm = (refl, refl, refl, refl)
batch_rounds-apply_batch n zero (u ∷ us) w enough calm = ground arith
batch_rounds-apply_batch n (suc fuel) [] w enough calm = (refl, refl, refl, refl)
batch_rounds-apply_batch n (suc fuel) (u ∷ us) w enough calm =
    let chunk = take (suc n) (u ∷ us) in
    let left = drop (suc n) (u ∷ us) in
    let v = record w { db = apply_batch chunk w.db; faults = later w.faults } in
    let (r, d, l, q) =
      batch_rounds-apply_batch n fuel left v (omega (arith, enough, length-drop n us))
        (ap later calm) in
    rw
      (>>=-return _ (λ _. batch_rounds (suc n) fuel left) tt w v
        (db_call-return (send_batch chunk) tt _ w (ap fails calm) (send_batch-ok chunk w.db)))
      (r, d ∙ apply_batch-take-drop (suc n) (u ∷ us) w.db, l, q)

-- With no failure of the database, the updates in batches of 128 do what one batch of all of them
-- would do, however many there are: the rounds end with no update left.
pub batch_update_instance_states-apply_batch :
    (us : List InstanceStateUpdate) (w : World)
    → w.faults ≡ []
    → let (r, w') = batch_update_instance_states us w in
      (r ≡ ok tt) × (w'.db ≡ apply_batch us w.db) × (w'.log ≡ w.log) × (w'.queue ≡ w.queue)
unfolding batch_update_instance_states
batch_update_instance_states-apply_batch us w calm =
    batch_rounds-apply_batch 127 (length us) us w (omega arith) calm
