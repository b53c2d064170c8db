-- ===== src/Ledger/Live.antt =====
-- A ledger of the open-mesh profile, over an open store whose transactions succeed, and what its methods do there as
-- functions on the entries.
use cerberus.Base.{
  ℕ, ◌+◌, ◌-◌, ◌%◌, ◌≡◌, refl, true, [], String, ok, u64_mod, ltb, if◌then◌else◌, arith,
}
use cerberus.Store.Bucket.{Entries, lookup, put_entry, remove}
use cerberus.Ledger.Types.{
  LedgerKey, utxo, pending, meta_next, meta_next_tx, Value, utxo_json, pending_json, counter, Utxo,
  PendingSettlement, Ledger, counter_or, ledger_key_order,
}
use cerberus.Ledger.Monad.{◌>>=◌, pure}
use cerberus.Ledger.Utxos.{mint_locked, mint_change}
use cerberus.Ledger.Settlement.{next_tx_locked, put_pending_locked}

pub record View : Type 0 where
  pub entries : Entries LedgerKey Value
  pub next : ℕ
  pub block : ℕ

abbrev pub live : View → Ledger
live x = record {
  store = record { opened = true; entries = x.entries; faults = [] };
  next = x.next;
  block = x.block;
  enabled = true;
}

abbrev pub coin_json : String → ℕ → Value
coin_json owner value = utxo_json (record { owner = owner; value = value })

unfoldable pub minted : String → ℕ → View → View
minted owner value x = record x {
  entries =
      put_entry meta_next (counter ((x.next + 1) % u64_mod))
        (put_entry (utxo x.next) (coin_json owner value) x.entries);
  next = (x.next + 1) % u64_mod;
}

pub mint_locked-live :
    (owner : String) (value : ℕ) (x : View)
    → mint_locked owner value (live x) ≡ (ok x.next, live (minted owner value x))
unfolding mint_locked minted
mint_locked-live owner value x = refl

-- The same where the new id is dropped.
pub mint_unit-live :
    (owner : String) (value : ℕ) (x : View)
    → (mint_locked owner value >>= λ _. pure tt) (live x) ≡ (ok tt, live (minted owner value x))
unfolding mint_locked minted
mint_unit-live owner value x = refl

unfoldable pub changed : Utxo → ℕ → View → View
changed u amt x = if ltb amt u.value then minted u.owner (u.value - amt) x else x

pub mint_change-live :
    (u : Utxo) (amt : ℕ) (x : View) → mint_change u amt (live x) ≡ (ok tt, live (changed u amt x))
unfolding mint_change minted changed
mint_change-live u amt x = ground arith

abbrev pub spent : ℕ → View → View
spent id x = record x { entries = remove (utxo id) x.entries }

abbrev pub next_tx : View → ℕ
next_tx x = counter_or 1 (lookup meta_next_tx x.entries)

abbrev pub tx_taken : View → View
tx_taken x = record x {
  entries = put_entry meta_next_tx (counter ((next_tx x + 1) % u64_mod)) x.entries;
}

pub next_tx_locked-live : (x : View) → next_tx_locked (live x) ≡ (ok (next_tx x), live (tx_taken x))
unfolding next_tx_locked
next_tx_locked-live x = refl

abbrev pub claimed : PendingSettlement → View → View
claimed p x = record x { entries = put_entry (pending p.tx) (pending_json p) x.entries }

pub put_pending_locked-live :
    (p : PendingSettlement) (x : View) → put_pending_locked p (live x) ≡ (ok tt, live (claimed p x))
unfolding put_pending_locked
put_pending_locked-live p x = refl
