-- ===== src/Ledger/Restart.antt =====
-- daemon/ledger/ledger.go: what `Open` finds after a restart, and the durable block height.
use cerberus.Base.{
  ℕ, ◌+◌, ◌%◌, ◌≡◌, refl, true, some, String, arith, ok, err, u64_mod, Bool-cases, inl, inr, ◌⊎◌,
}
use cerberus.Store.{next_fails, closed, fault}
use cerberus.Store.Bucket.{lookup, lookup-put_entry}
use cerberus.Ledger.Types.{
  meta_next, meta_block, counter, Ledger, Error, counter_or, store_error, ledger_key_order,
  same_key,
}
use cerberus.Ledger.Utxos.{mint_locked, open_ledger, advance_block}
use cerberus.Ledger.Live.{View, live, minted, mint_locked-live}
use cerberus.Ledger.Sound.{lookup-minted}

-- The counters survive a restart: where the block height is the stored one, `Open` on what a mint
-- of a live ledger left in the store gives the ledger that the mint left in memory.
pub open_ledger-mint :
    (owner : String) (value : ℕ) (x : View)
    → counter_or 0 (lookup meta_block x.entries) ≡ x.block
    → open_ledger (mint_locked owner value (live x)).1.store true
      ≡ ok (mint_locked owner value (live x)).1
unfolding open_ledger same_key
open_ledger-mint owner value x stored =
    rw
      (
        mint_locked-live owner value x,
        lookup-minted owner value x meta_next,
        lookup-minted owner value x meta_block,
        stored,
      )
      (unfold minted in refl)

abbrev pub AdvanceStored : ℕ → Ledger → Type 0
AdvanceStored n l =
    let b = (l.block + n) % u64_mod in
    let l' = (advance_block n l).1 in
    (((advance_block n l).0 ≡ ok b)
      × (l'.block ≡ b)
      × (lookup meta_block l'.store.entries ≡ some (counter b)))
    ⊎ ((e : Error) × ((advance_block n l).0 ≡ err e)
        × (l'.block ≡ l.block)
        × (l'.store.entries ≡ l.store.entries))

-- Whatever the store does, the height in memory never runs away from the stored one: `AdvanceBlock`
-- either stores the new height and returns it, or fails and leaves height and entries as they were.
advance_block_stored : (n : ℕ) (l : Ledger) → AdvanceStored n l
unfolding advance_block same_key
advance_block_stored n l = elim (Bool-cases l.store.opened) [
  | inr shut ↦ inr (store_error closed, ground arith, ground arith, ground arith)
  | inl ready ↦ elim (Bool-cases (next_fails l.store.faults)) [
    | inl bad ↦ inr (store_error fault, ground arith, ground arith, ground arith)
    | inr good ↦ inl (
      ground arith,
      ground arith,
      ground (
        arith,
        lookup-put_entry meta_block meta_block (counter ((l.block + n) % u64_mod)) l.store.entries,
      ),
    )
  ]
]
