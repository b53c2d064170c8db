-- ===== src/Ledger/Sound.antt =====
-- The ledger's well-formedness: every key stands once, and the counters are above every id in use.
use cerberus.Base.{ℕ, ◌+◌, ◌%◌, ◌≤◌, ◌<◌, ◌≡◌, none, some, String, arith, u64_mod, if◌then◌else◌}
use cerberus.Store.Bucket.{
  lookup, Distinct, lookup-put_entry, lookup-remove, Distinct-put_entry, Distinct-remove,
}
use cerberus.Ledger.Types.{
  LedgerKey, utxo, pending, meta_next, meta_next_tx, pending_json, counter, PendingSettlement,
  ledger_key_order, same_key,
}
use cerberus.Ledger.Live.{View, minted, spent, tx_taken, next_tx, claimed, coin_json}

pub record Sound (x : View) : Type 0 where
  pub distinct : Distinct x.entries
  pub fresh : (id : ℕ) → x.next ≤ id → lookup (utxo id) x.entries ≡ none
  pub fresh_tx : (tx : ℕ) → next_tx x ≤ tx → lookup (pending tx) x.entries ≡ none

-- What stands under any key after a mint.
pub lookup-minted :
    (o : String) (value : ℕ) (x : View) (k : LedgerKey)
    → lookup k (minted o value x).entries ≡ (
        if same_key meta_next k
        then some (counter ((x.next + 1) % u64_mod))
        else if same_key (utxo x.next) k
        then some (coin_json o value)
        else lookup k x.entries)
unfolding minted
lookup-minted o value x k = rw (
  lookup-put_entry meta_next k (counter ((x.next + 1) % u64_mod)) _,
  lookup-put_entry (utxo x.next) k (coin_json o value) x.entries,
)

pub next-minted :
    (o : String) (value : ℕ) (x : View)
    → x.next + 1 < u64_mod
    → (minted o value x).next ≡ x.next + 1
unfolding minted
next-minted o value x room = omega arith

pub minted-Sound :
    (o : String) (value : ℕ) (x : View) → x.next + 1 < u64_mod → Sound x → Sound (minted o value x)
unfolding same_key
minted-Sound o value x room s = record {
  distinct = unfold minted in Distinct-put_entry _ _ _ (Distinct-put_entry _ _ _ s.distinct);
  fresh = λ id h.
      ground (arith, lookup-minted o value x (utxo id), next-minted o value x room, s.fresh id);
  fresh_tx = λ tx h. ground (
    arith,
    lookup-minted o value x (pending tx),
    lookup-minted o value x meta_next_tx,
    s.fresh_tx tx,
  );
}

pub spent-Sound : (id : ℕ) (x : View) → Sound x → Sound (spent id x)
unfolding same_key
spent-Sound id x s = record {
  distinct = Distinct-remove _ _ s.distinct;
  fresh = λ j h. ground (arith, lookup-remove (utxo id) (utxo j) x.entries s.distinct, s.fresh j);
  fresh_tx = λ tx h. ground (
    arith,
    lookup-remove (utxo id) (pending tx) x.entries s.distinct,
    lookup-remove (utxo id) meta_next_tx x.entries s.distinct,
    s.fresh_tx tx,
  );
}

pub tx_taken-Sound : (x : View) → next_tx x + 1 < u64_mod → Sound x → Sound (tx_taken x)
unfolding same_key
tx_taken-Sound x room s =
    let put = λ (k : LedgerKey).
      lookup-put_entry meta_next_tx k (counter ((next_tx x + 1) % u64_mod)) x.entries in
    record {
      distinct = Distinct-put_entry _ _ _ s.distinct;
      fresh = λ id h. ground (arith, put (utxo id), s.fresh id);
      fresh_tx = λ tx h. ground (arith, put (pending tx), put meta_next_tx, s.fresh_tx tx);
    }

pub claimed-Sound :
    (p : PendingSettlement) (x : View) → p.tx < next_tx x → Sound x → Sound (claimed p x)
unfolding same_key
claimed-Sound p x old s =
    let put = λ (k : LedgerKey). lookup-put_entry (pending p.tx) k (pending_json p) x.entries in
    record {
      distinct = Distinct-put_entry _ _ _ s.distinct;
      fresh = λ id h. ground (arith, put (utxo id), s.fresh id);
      fresh_tx = λ tx h. ground (arith, put (pending tx), put meta_next_tx, s.fresh_tx tx);
    }
