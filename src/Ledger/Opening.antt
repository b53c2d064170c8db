-- ===== src/Ledger/Opening.antt =====
-- daemon/ledger/settlement.go: `OpenOptimistic`, the two locks and the new claim.
use cerberus.Base.{
  ℕ, ◌+◌, ◌%◌, ◌<◌, ◌≡◌, ◌≢◌, refl, ap, sym, ◌∙◌, false, none, some, String, arith, ok, err,
  u64_mod, ◌==◌, ==_iff, str_eq_iff, Bool-cases, inl, inr, lt→ltb,
}
use cerberus.Store.Bucket.{lookup, lookup-put_entry}
use cerberus.Ledger.Types.{
  LedgerKey, utxo, pending, meta_next, meta_next_tx, pending_json, counter, counter_or, Utxo,
  PendingSettlement, SettlementBinding, claim_pending, ledger_key_order, same_key, is_utxo_key,
  no_such_utxo,
}
use cerberus.Ledger.Monad.{◌>>=◌, ◌>>◌}
use cerberus.Ledger.Settlement.{
  open_optimistic, lock_from_input_locked, put_pending_locked, escrow_owner,
}
use cerberus.Ledger.Live.{View, live, next_tx, tx_taken, claimed, next_tx_locked-live}
use cerberus.Ledger.Amounts.{
  Measure, supply, claims, owned, coin, amount, coin-add, amount-tx_taken, amount-claimed_fresh,
}
use cerberus.Ledger.Sound.{Sound, tx_taken-Sound, claimed-Sound}
use cerberus.Ledger.Payment.{
  HasRoom, paid, paid-Sound, next-paid, amount-paid, lock-live, lookup-paid, lookup-paid_other,
  input_below,
}
use cerberus.Ledger.Bond.{
  Covers, bonded, bonded-live, bonded-Sound, amount-bonded, lookup-bonded, no_escrow,
}
use cerberus.Ledger.Claims.{Solvent}

module _ (now payment_input : ℕ) (u : Utxo) (payment bond_input : ℕ) (w : Utxo)
    (bond dispute_blocks : ℕ) (binding : SettlementBinding) (x : View) where
  abbrev pub claim : PendingSettlement
  claim = record {
    tx = next_tx x;
    consumer = u.owner;
    provider = w.owner;
    payment = payment;
    bond = bond;
    opened_at = now;
    dispute_block = dispute_blocks;
    binding = binding;
    state = claim_pending;
  }

  abbrev pub first : View
  first = paid payment_input u escrow_owner payment x

  abbrev pub both : View
  both = bonded bond_input w bond first

  abbrev pub opened : View
  opened = claimed claim (tx_taken both)

  -- The bond's input is another UTXO than the payment's, and covers the bond.
  abbrev pub BondApart : Type 0
  BondApart = 0 < bond → Covers bond_input w bond x × (bond_input ≢ payment_input)

  still_covered : HasRoom 4 x → Sound x → BondApart → 0 < bond → Covers bond_input w bond first
  still_covered room s h pos =
      let (k, apart) = h pos in
      (
        elim (Bool-cases (payment_input == bond_input)) [
          | inl e ↦ absurd (apart (sym ((==_iff payment_input bond_input).0 e)))
          | inr e ↦
              lookup-paid_other payment_input u escrow_owner payment x bond_input (omega arith) s
                (input_below bond_input w x s k.0)
              ∙ rw e k.0
        ],
        k.1,
      )

  both-Sound : HasRoom 4 x → Sound x → Sound both
  both-Sound room s =
      bonded-Sound bond_input w bond first
        (omega (arith, next-paid payment_input u escrow_owner payment x (omega arith)))
        (paid-Sound payment_input u escrow_owner payment x (omega arith) s)

  amount-both :
      HasRoom 4 x
      → Sound x
      → Covers payment_input u payment x
      → BondApart
      → (c : Measure)
      → amount c both.entries + coin c u.owner payment + coin c w.owner bond
        ≡ amount c x.entries + coin c escrow_owner (payment + bond)
  amount-both room s k h c =
      let s1 = paid-Sound payment_input u escrow_owner payment x (omega arith) s in
      omega (
        arith,
        amount-paid payment_input u escrow_owner payment x c (omega arith) s k.0 k.1,
        amount-bonded bond_input w bond first
            (omega (arith, next-paid payment_input u escrow_owner payment x (omega arith))) s1
            (still_covered room s h) c,
        coin-add c escrow_owner payment bond,
      )

  lookup-both :
      HasRoom 4 x
      → Sound x
      → (k : LedgerKey) → is_utxo_key k ≡ false
      → same_key meta_next k ≡ false
      → lookup k both.entries ≡ lookup k x.entries
  lookup-both room s k plain other =
      lookup-bonded bond_input w bond first k
        (paid-Sound payment_input u escrow_owner payment x (omega arith) s) plain other
      ∙ lookup-paid payment_input u escrow_owner payment x k s plain other

  next_tx-both : HasRoom 4 x → Sound x → next_tx both ≡ next_tx x
  unfolding same_key
  next_tx-both room s = ap (counter_or 1) (lookup-both room s meta_next_tx refl refl)

  pub open_optimistic-live :
      HasRoom 4 x
      → Sound x
      → Covers payment_input u payment x
      → BondApart
      → open_optimistic now payment_input u.owner payment bond_input w.owner bond dispute_blocks
          binding
          (live x)
        ≡ (ok (next_tx x), live opened)
  unfolding open_optimistic put_pending_locked
  open_optimistic-live room s k h = rw (
    ◌>>◌,
    lock-live payment_input u escrow_owner payment x k.0 k.1,
    bonded-live bond_input w bond first (still_covered room s h),
    ◌>>=◌,
    next_tx_locked-live both,
    next_tx-both room s,
  )

  abbrev pub OpenLocks : Type 0
  OpenLocks =
      (y : View) × (open_optimistic now payment_input u.owner payment bond_input w.owner bond
          dispute_blocks binding (live x)
        ≡ (ok (next_tx x), live y))
      × Solvent y
      × (amount supply y.entries ≡ amount supply x.entries)
      × ((who : String)
          → amount (owned who) y.entries
              + coin (owned who) u.owner payment
              + coin (owned who) w.owner bond
            ≡ amount (owned who) x.entries + coin (owned who) escrow_owner (payment + bond))
      × (lookup (pending (next_tx x)) y.entries ≡ some (pending_json claim))

  -- A funded opening always goes through on a solvent ledger: payment and bond move into escrow
  -- from their owners, the new claim is filed as pending under the next number, the supply stays,
  -- and the ledger stays solvent.
  pub open_optimistic_locks :
      Solvent x
      → HasRoom 4 x
      → next_tx x + 1 < u64_mod
      → Covers payment_input u payment x
      → BondApart
      → u.owner ≢ escrow_owner
      → w.owner ≢ escrow_owner
      → OpenLocks
  unfolding same_key
  open_optimistic_locks v room txs k h hu hw =
      let s = both-Sound room v.sound in
      let same = next_tx-both room v.sound in
      let s3 = tx_taken-Sound both (omega (arith, same)) s in
      let put = λ (j : LedgerKey).
        lookup-put_entry meta_next_tx j (counter ((next_tx both + 1) % u64_mod)) both.entries in
      let file = λ (j : LedgerKey).
        lookup-put_entry (pending (next_tx x)) j (pending_json claim) (tx_taken both).entries in
      let fresh : lookup (pending (next_tx x)) (tx_taken both).entries ≡ none =
        put (pending (next_tx x)) ∙ s.fresh_tx (next_tx x) (omega (arith, same)) in
      let sums = λ (c : Measure). amount-claimed_fresh c claim (tx_taken both) fresh in
      let kept = λ (c : Measure). amount-tx_taken c both in
      let moved = amount-both room v.sound k h in
      (
        opened,
        open_optimistic-live room v.sound k h,
        record {
          sound = claimed-Sound claim (tx_taken both) (ground (arith, put meta_next_tx, same)) s3;
          filed = λ t r found. ground (
            arith,
            file (pending t),
            put (pending t),
            lookup-both room v.sound (pending t) refl refl,
            v.filed t r,
          );
          backed = omega (
            arith,
            sums claims,
            kept claims,
            moved claims,
            v.backed,
            sums (owned escrow_owner),
            kept (owned escrow_owner),
            moved (owned escrow_owner),
            no_escrow u.owner payment hu,
            no_escrow w.owner bond hw,
          );
          bounded = omega (arith, sums supply, kept supply, moved supply, v.bounded);
        },
        omega (arith, sums supply, kept supply, moved supply),
        (λ who. omega (arith, sums (owned who), kept (owned who), moved (owned who))),
        ground (arith, file (pending (next_tx x))),
      )

  abbrev pub OpenStrands : Type 0
  OpenStrands =
      (y : View) × (open_optimistic now payment_input u.owner payment bond_input w.owner bond
          dispute_blocks binding (live x)
        ≡ (err no_such_utxo, live y))
      × (amount claims y.entries ≡ amount claims x.entries)
      × (amount (owned escrow_owner) y.entries ≡ amount (owned escrow_owner) x.entries + payment)
      × (amount (owned u.owner) y.entries + payment ≡ amount (owned u.owner) x.entries)

  -- If the bond's input does not exist, opening fails after the payment was taken: the call
  -- returns an error, the payment is in escrow, and no claim backs it.
  open_optimistic_strands :
      HasRoom 4 x
      → Sound x
      → Covers payment_input u payment x
      → 0 < bond
      → bond_input < x.next
      → lookup (utxo bond_input) x.entries ≡ none
      → u.owner ≢ escrow_owner
      → OpenStrands
  unfolding open_optimistic lock_from_input_locked
  open_optimistic_strands room s k pos below missing hu =
      let moved = λ (c : Measure).
        amount-paid payment_input u escrow_owner payment x c (omega arith) s k.0 k.1 in
      (
        first,
        rw (
          ◌>>◌,
          lock-live payment_input u escrow_owner payment x k.0 k.1,
          lt→ltb 0 bond pos,
          gone,
        ),
        omega (arith, moved claims),
        omega (arith, moved (owned escrow_owner), no_escrow u.owner payment hu, escrow_own),
        omega (arith, moved (owned u.owner), self, other),
      )
    where
      gone : lookup (utxo bond_input) first.entries ≡ none
      gone = ground (
        arith,
        lookup-paid_other payment_input u escrow_owner payment x bond_input (omega arith) s below,
      )

      escrow_own : coin (owned escrow_owner) escrow_owner payment ≡ payment
      escrow_own = refl

      self : coin (owned u.owner) u.owner payment ≡ payment
      self = ground (arith, str_eq_iff u.owner u.owner)

      other : coin (owned u.owner) escrow_owner payment ≡ 0
      other = ground (arith, str_eq_iff escrow_owner u.owner, hu)
