-- ===== src/Economy/Paid.antt =====
-- daemon/economy/settle.go: the payment for a settled task.
use cerberus.Base.{
  ℕ, ◌+◌, ◌%◌, ◌≤◌, ◌<◌, ◌≡◌, ◌≢◌, refl, sym, ap, ◌∙◌, true, false, String, arith, ok, u64_mod,
  str_eq,
}
use cerberus.Ledger.Types.{Utxo, SettlementBinding, ledger_key_order}
use cerberus.Ledger.Utxos.{advance_block}
use cerberus.Ledger.Settlement.{window_elapsed, escrow_owner}
use cerberus.Ledger.Live.{View, live, next_tx}
use cerberus.Ledger.Amounts.{supply, owned, amount, coin}
use cerberus.Ledger.Payment.{HasRoom}
use cerberus.Ledger.Bond.{Covers}
use cerberus.Ledger.Claims.{Solvent}
use cerberus.Ledger.Opening.{claim, opened, BondApart, open_optimistic-live, open_optimistic_locks}
use cerberus.Ledger.Finalize.{finalize_pays}
use cerberus.Ledger.Height.{raised, amount-raised, pending-raised, raised-Solvent, bonded_counts}
use cerberus.Economy.{
  CompletedTask, Claim, window, binding_of, settle_completed_task, advance, finalize_settled,
}

module _ (task : CompletedTask) (input_cid : String) (payment_input : ℕ) (u : Utxo)
    (payment bond_input : ℕ) (w : Utxo) (bond dispute_blocks : ℕ) (output_cid : String) (n : ℕ)
    (x : View) where
  abbrev pub c : Claim
  c = record {
    consumer = u.owner;
    provider = w.owner;
    payment_input = payment_input;
    payment = payment;
    bond_input = bond_input;
    bond = bond;
    output_cid = output_cid;
    dispute_blocks = dispute_blocks;
  }

  abbrev pub TaskPaid : Type 0
  TaskPaid =
      (y : View) × (z : View) × (settle_completed_task task input_cid c (live x)
        ≡ (ok (next_tx x), live y))
      × (advance n (live y) ≡ (x.block + n, live (raised n y)))
      × (finalize_settled (next_tx x) (live (raised n y)) ≡ (ok payment, live z))
      × Solvent z
      × (amount supply z.entries ≡ amount supply x.entries)
      × ((who : String)
          → amount (owned who) z.entries
              + coin (owned who) u.owner payment
              + coin (owned who) w.owner bond
            ≡ amount (owned who) x.entries + coin (owned who) w.owner (payment + bond))

  elapsed :
      x.block + n < u64_mod
      → window c ≤ n
      → (now : ℕ) → now ≡ x.block + n
      → window_elapsed
          (claim x.block payment_input u payment bond_input w bond
            (window c)
            (binding_of task input_cid c)
            x)
          now
        ≡ true
  unfolding window_elapsed
  elapsed room long now e = ground (arith, room, long, e)

  -- A task whose payment and bond are covered on a solvent ledger is settled, and when the height has
  -- risen by the window at least, Finalize succeeds. In all the provider has been paid by the
  -- consumer, nobody else's holdings and no total changed, and the ledger is solvent.
  pub settled_task_paid :
      Solvent x
      → HasRoom 5 x
      → next_tx x + 1 < u64_mod
      → x.block + n < u64_mod
      → window c ≤ n
      → Covers payment_input u payment x
      → BondApart x.block payment_input u payment bond_input w bond
          (window c)
          (binding_of task input_cid c)
          x
      → u.owner ≢ escrow_owner
      → w.owner ≢ escrow_owner
      → str_eq u.owner "" ≡ false
      → str_eq w.owner "" ≡ false
      → TaskPaid
  unfolding settle_completed_task advance finalize_settled advance_block
  settled_task_paid v room txs high long k h hu hw some_consumer some_provider =
      let b : SettlementBinding = binding_of task input_cid c in
      let (y, e, vy, total, own, filed) =
        open_optimistic_locks x.block payment_input u payment bond_input w bond (window c) b x v
          (omega arith) txs k h hu hw in
      let o : View = opened x.block payment_input u payment bond_input w bond (window c) b x in
      let same : live y ≡ live o =
        ap (λ p. p.1)
          (sym e
            ∙ open_optimistic-live x.block payment_input u payment bond_input w bond (window c) b x
                (omega arith) v.sound k h) in
      let counts = bonded_counts payment_input u payment bond_input w bond x (omega arith) in
      let height : y.block ≡ x.block = ap (λ l. l.block) same ∙ counts.0 in
      let few : y.next ≡ o.next = ap (λ l. l.next) same in
      let now : (y.block + n) % u64_mod ≡ x.block + n = omega (arith, height, high) in
      let (z, f, vz, total', own', closed) =
        finalize_pays (next_tx x) ((y.block + n) % u64_mod)
          (claim x.block payment_input u payment bond_input w bond (window c) b x) (raised n y)
          (raised-Solvent n y vy) (omega (arith, few, counts.1, room))
          (pending-raised n (next_tx x) y ∙ filed) refl (elapsed high long _ now) in
      (
        y,
        z,
        rw (some_consumer, some_provider, e) refl,
        rw now refl,
        f,
        vz,
        omega (arith, total', amount-raised supply n y, total),
        λ who. omega (arith, own' who, amount-raised (owned who) n y, own who),
      )
