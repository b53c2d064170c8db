-- ===== src/Ledger/Tests.antt =====
-- daemon/ledger: the theorems at concrete ledgers, and runs of the methods.
use cerberus.Base.{◌≡◌, refl, true, false, [], ◌∷◌, arith, str_eq_iff}
use cerberus.Ledger.Types.{
  utxo, pending, meta_next, meta_next_tx, utxo_json, pending_json, counter, Utxo, PendingSettlement,
  SettlementBinding, claim_pending, claim_finalized, same_key, Ledger, ledger_key_order,
}
use cerberus.Ledger.Utxos.{settle, mint_locked}
use cerberus.Ledger.Settlement.{window_elapsed, FraudProof}
use cerberus.Ledger.Live.{View, live}
use cerberus.Ledger.Sound.{Sound}
use cerberus.Ledger.Payment.{SettlePays, settle_pays}
use cerberus.Ledger.Claims.{Solvent}
use cerberus.Ledger.Finalize.{finalize_pays, FinalizePays}
use cerberus.Ledger.Challenge.{ChallengeSlashes, challenge_slashes}
use cerberus.Ledger.Opening.{OpenLocks, open_optimistic_locks}
use cerberus.Ledger.Refusals.{window_elapsed_iff}
use cerberus.Ledger.Faults.{FinalizeInflates, finalize_fault_inflates}

abbrev pub alice_coin : Utxo
alice_coin = record { owner = "alice"; value = 100 }

abbrev pub bob_coin : Utxo
bob_coin = record { owner = "bob"; value = 50 }

abbrev binding : SettlementBinding
binding = record { task_id = "t"; component_cid = "c"; input_cid = "i"; output_cid = "o" }

-- Alice has 100 and Bob 50; nothing is pending.
abbrev pub quiet : View
quiet = record {
  entries =
      (meta_next, counter 3) ∷ (utxo 1, utxo_json alice_coin) ∷ (utxo 2, utxo_json bob_coin) ∷ [];
  next = 3;
  block = 0;
}

abbrev task : PendingSettlement
task = record {
  tx = 1;
  consumer = "alice";
  provider = "bob";
  payment = 20;
  bond = 10;
  opened_at = 5;
  dispute_block = 10;
  binding = binding;
  state = claim_pending;
}

-- Alice paid 20 and Bob bonded 10 for one task.
abbrev busy : View
busy = record {
  entries =
      (meta_next, counter 7)
      ∷ (meta_next_tx, counter 2)
      ∷ (pending 1, pending_json task)
      ∷ (utxo 3, utxo_json (record { owner = "alice"; value = 80 }))
      ∷ (utxo 4, utxo_json (record { owner = "__escrow__"; value = 20 }))
      ∷ (utxo 5, utxo_json (record { owner = "bob"; value = 40 }))
      ∷ (utxo 6, utxo_json (record { owner = "__escrow__"; value = 10 }))
      ∷ [];
  next = 7;
  block = 5;
}

quiet-Sound : Sound quiet
unfolding same_key
quiet-Sound = record {
  distinct = (refl, (refl, (refl, tt)));
  fresh = λ id h. ground arith;
  fresh_tx = λ tx h. refl;
}

pub quiet-Solvent : Solvent quiet
unfolding same_key
quiet-Solvent = record {
  sound = quiet-Sound;
  filed = λ tx p h. ground arith;
  backed = omega arith;
  bounded = omega arith;
}

busy-Sound : Sound busy
unfolding same_key
busy-Sound = record {
  distinct = (refl, (refl, (refl, (refl, (refl, (refl, (refl, tt)))))));
  fresh = λ id h. ground arith;
  fresh_tx = λ tx h. ground arith;
}

busy-Solvent : Solvent busy
unfolding same_key
busy-Solvent = record {
  sound = busy-Sound;
  filed = λ tx p h. ground arith;
  backed = omega arith;
  bounded = omega arith;
}

settle_pays_example : SettlePays 1 alice_coin "carol" 30 quiet
unfolding same_key
settle_pays_example =
    settle_pays 1 alice_coin "carol" 30 quiet quiet-Sound (omega arith) refl (omega arith)

abbrev after_settle : Ledger
after_settle = (settle 1 "carol" 30 (live quiet)).1

abbrev refused : Ledger
refused = (settle 1 "carol" 101 (live quiet)).1

finalize_pays_example : FinalizePays 1 15 task busy
unfolding same_key window_elapsed
finalize_pays_example = finalize_pays 1 15 task busy busy-Solvent (omega arith) refl refl refl

abbrev proof : FraudProof
proof = record {
  component_cid = "c";
  input_cid = "i";
  claimed_output_cid = "o";
  actual_output_cid = "other";
}

challenge_slashes_example : ChallengeSlashes 1 14 task proof "carol" busy
unfolding same_key window_elapsed
challenge_slashes_example =
    challenge_slashes 1 14 task proof "carol" busy busy-Solvent (omega arith) refl refl refl
      (refl, refl, refl, λ e. cc ((str_eq_iff "other" "o").1 e))

open_optimistic_locks_example : OpenLocks 5 1 alice_coin 20 2 bob_coin 10 10 binding quiet
unfolding same_key
open_optimistic_locks_example =
    open_optimistic_locks 5 1 alice_coin 20 2 bob_coin 10 10 binding quiet quiet-Solvent
      (omega arith) (omega arith) (refl, omega arith)
      (λ pos. ((refl, omega arith), λ e. absurd (omega arith)))
      (λ e. cc ((str_eq_iff "alice" "__escrow__").1 e))
      (λ e. cc ((str_eq_iff "bob" "__escrow__").1 e))

window_elapsed_iff_example : (window_elapsed task 15 ≡ true) × (window_elapsed task 14 ≡ false)
unfolding window_elapsed
window_elapsed_iff_example =
    ((window_elapsed_iff task 15 (omega arith) (omega arith)).1 (omega arith), refl)

-- The same ledger after the claim was finalized.
abbrev done : View
done = record busy {
  entries =
      (pending 1, pending_json (record task { state = claim_finalized }))
      ∷ (utxo 7, utxo_json (record { owner = "bob"; value = 30 }))
      ∷ [];
}

finalize_fault_inflates_example : FinalizeInflates 1 15 task busy
unfolding same_key window_elapsed
finalize_fault_inflates_example =
    finalize_fault_inflates 1 15 task busy busy-Sound (omega arith) refl refl refl (omega arith)
      (omega arith)

abbrev after_mint : Ledger
after_mint = (mint_locked "carol" 7 (live quiet)).1
