-- ===== src/Ledger/Settlement.antt =====
-- daemon/ledger/settlement.go: optimistic settlements, their escrow, and fraud challenges.
use cerberus.Base.{
  ℕ, ◌+◌, ◌-◌, ◌%◌, Bool, true, false, not, ◌&&◌, List, [], ◌∷◌, Option, none, some, String,
  u64_mod, ltb, leb, ◌==◌, if◌then◌else◌, str_eq,
}
use cerberus.Store
use cerberus.Ledger.Types.{
  LedgerKey, utxo, pending, meta_next_tx, Value, utxo_json, pending_json, counter, Utxo,
  PendingSettlement, SettlementBinding, ClaimState, claim_pending, claim_finalized, claim_slashed,
  as_utxo, as_pending, counter_or, is_utxo_key, no_such_utxo, not_owned, bad_json,
  insufficient_value, escrow_underflow, no_such_pending, not_pending, window_open, window_closed,
  binding_mismatch, output_mismatch, outputs_match, ledger_key_order,
}
use cerberus.Ledger.Monad.{M, ◌>>=◌, ◌>>◌, pure, guard, or_fail, on_store, economy_enabled}
use cerberus.Ledger.Utxos.{mint_locked, mint_change, get_utxo_locked}

abbrev pub escrow_owner : String
escrow_owner = "__escrow__"

abbrev pub is_pending : ClaimState → Bool
is_pending claim_pending = true
is_pending _ = false

-- `end := p.OpenedAt + p.DisputeBlock`, and the largest height where that wraps around.
unfoldable pub window_elapsed : PendingSettlement → ℕ → Bool
window_elapsed p now =
    let end = (p.opened_at + p.dispute_block) % u64_mod in
    leb (if ltb end p.opened_at then u64_mod - 1 else end) now

pub record FraudProof : Type 0 where
  pub component_cid : String
  pub input_cid : String
  pub claimed_output_cid : String
  pub actual_output_cid : String

pub record Slash : Type 0 where
  pub tx : ℕ
  pub refunded : ℕ
  pub bond_awarded : ℕ

unfoldable pub persist_next_tx : ℕ → M (Unit {0})
unfolding Store.put
persist_next_tx tx = on_store (Store.put meta_next_tx (counter tx))

unfoldable pub next_tx_locked : M ℕ
unfolding Store.get persist_next_tx
next_tx_locked = do
  b ← on_store (Store.get meta_next_tx)
  persist_next_tx ((counter_or 1 b + 1) % u64_mod)
  pure (counter_or 1 b)

unfoldable pub lock_from_input_locked : ℕ → String → ℕ → M (Unit {0})
unfolding get_utxo_locked Store.delete mint_change mint_locked
lock_from_input_locked input owner amt = do
  found ← get_utxo_locked input
  u ← or_fail found no_such_utxo
  guard (str_eq u.owner owner) not_owned
  guard (leb amt u.value) insufficient_value
  on_store (Store.delete (utxo input))
  mint_change u amt
  mint_locked escrow_owner amt >>= λ _. pure tt

-- What one escrow UTXO gives towards `remaining`: all of it, or a part that leaves the rest.
unfoldable pub release_from : LedgerKey → ℕ → Option Utxo → M ℕ
unfolding Store.put Store.delete
release_from k remaining none = pure remaining
release_from k remaining (some u) =
    if not (str_eq u.owner escrow_owner)
    then pure remaining
    else if leb u.value remaining
    then (on_store (Store.delete k) >> pure (remaining - u.value))
    else (on_store (Store.put k (utxo_json (record u { value = u.value - remaining }))) >> pure 0)

abbrev pub parse_utxo : Option Value → Option Utxo
parse_utxo none = none
parse_utxo (some v) = as_utxo v

unfoldable pub release_loop : List LedgerKey → ℕ → M ℕ
unfolding Store.get release_from
release_loop [] remaining = pure remaining
release_loop (k ∷ ks) remaining =
    let more = release_loop ks in
    if remaining == 0
    then pure remaining
    else if is_utxo_key k
    then (do b ← on_store (Store.get k); left ← release_from k remaining (parse_utxo b); more left)
    else more remaining

unfoldable pub release_escrow_locked : ℕ → M (Unit {0})
unfolding Store.keys release_loop
release_escrow_locked amt = if amt == 0 then pure tt else (do
  ks ← on_store Store.keys
  remaining ← release_loop ks amt
  guard (remaining == 0) escrow_underflow)

unfoldable pub put_pending_locked : PendingSettlement → M (Unit {0})
unfolding Store.put
put_pending_locked p = on_store (Store.put (pending p.tx) (pending_json p))

unfoldable pub pending_claim : ℕ → M (Option PendingSettlement)
unfolding Store.get
pending_claim tx = do
  b ← on_store (Store.get (pending tx))
  elim b [ none ↦ pure none | some v ↦ or_fail (as_pending v) bad_json >>= λ p. pure (some p) ]

unfoldable pub open_optimistic : ℕ → ℕ → String → ℕ → ℕ → String → ℕ → ℕ → SettlementBinding → M ℕ
open_optimistic now payment_input consumer payment bond_input provider bond dispute_blocks binding =
    do
      economy_enabled
      lock_from_input_locked payment_input consumer payment
      if ltb 0 bond then lock_from_input_locked bond_input provider bond else pure tt
      tx ← next_tx_locked
      put_pending_locked (record {
        tx = tx;
        consumer = consumer;
        provider = provider;
        payment = payment;
        bond = bond;
        opened_at = now;
        dispute_block = dispute_blocks;
        binding = binding;
        state = claim_pending;
      })
      pure tx

-- The claim under `tx`, which must still be pending.
unfoldable pub load_pending : ℕ → M PendingSettlement
unfolding Store.get
load_pending tx = do
  b ← on_store (Store.get (pending tx))
  v ← or_fail b no_such_pending
  p ← or_fail (as_pending v) bad_json
  guard (is_pending p.state) not_pending
  pure p

unfoldable pub finalize : ℕ → ℕ → M ℕ
unfolding load_pending
finalize tx now = do
  economy_enabled
  p ← load_pending tx
  guard (window_elapsed p now) window_open
  mint_locked p.provider ((p.payment + p.bond) % u64_mod) >>= λ _. pure tt
  release_escrow_locked ((p.payment + p.bond) % u64_mod)
  put_pending_locked (record p { state = claim_finalized })
  pure p.payment

-- The checks of a challenge, in the source's order.
unfoldable pub check_fraud : PendingSettlement → FraudProof → M (Unit {0})
check_fraud p fraud = do
  guard
      (str_eq fraud.component_cid p.binding.component_cid
        && str_eq fraud.input_cid p.binding.input_cid)
      binding_mismatch
  guard (str_eq fraud.claimed_output_cid p.binding.output_cid) output_mismatch
  guard (not (str_eq fraud.actual_output_cid fraud.claimed_output_cid)) outputs_match

unfoldable pub challenge : ℕ → FraudProof → ℕ → String → M Slash
unfolding load_pending
challenge tx fraud now challenger = do
  economy_enabled
  p ← load_pending tx
  guard (not (window_elapsed p now)) window_closed
  check_fraud p fraud
  mint_locked p.consumer p.payment >>= λ _. pure tt
  if ltb 0 p.bond then (mint_locked challenger p.bond >>= λ _. pure tt) else pure tt
  release_escrow_locked ((p.payment + p.bond) % u64_mod)
  put_pending_locked (record p { state = claim_slashed })
  pure (record { tx = tx; refunded = p.payment; bond_awarded = p.bond })
