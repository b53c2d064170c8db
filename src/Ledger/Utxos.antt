-- ===== src/Ledger/Utxos.antt =====
-- daemon/ledger/ledger.go: the UTXO set, its counters, and the direct settlement.
use cerberus.Base.{
  ℕ, ◌+◌, ◌-◌, ◌%◌, Bool, true, List, [], ◌∷◌, Option, none, some, String, Result, ok, err, u64_mod,
  ltb, leb, if◌then◌else◌, str_eq,
}
use cerberus.Store
use cerberus.Store.{Store, StoreError}
use cerberus.Ledger.Types.{
  LedgerKey, utxo, meta_next, meta_block, Value, utxo_json, counter, Utxo, Ledger, Error, as_utxo,
  counter_or, is_utxo_key, no_such_utxo, bad_json, insufficient_value,
}
use cerberus.Ledger.Types.{ledger_key_order}
use cerberus.Ledger.Monad.{M, ◌>>=◌, ◌>>◌, pure, guard, or_fail, on_store, economy_enabled}

-- Open: both counters from the store, or their defaults.
unfoldable pub open_ledger : Store LedgerKey Value → Bool → Result StoreError Ledger
unfolding Store.get
open_ledger s open_mesh = elim (Store.get meta_next s).0 [
  | err e ↦ err e
  | ok next ↦ elim (Store.get meta_block (Store.get meta_next s).1).0 [
    | err e ↦ err e
    | ok block ↦ ok (record {
      store = (Store.get meta_block (Store.get meta_next s).1).1;
      next = counter_or 1 next;
      block = counter_or 0 block;
      enabled = open_mesh;
    })
  ]
]

unfoldable pub persist_next : M (Unit {0})
unfolding Store.put
persist_next l = on_store (Store.put meta_next (counter l.next)) l

unfoldable pub persist_block : M (Unit {0})
unfolding Store.put
persist_block l = on_store (Store.put meta_block (counter l.block)) l

abbrev advanced : ℕ → Result Error (Unit {0}) × Ledger → Result Error ℕ × Ledger
advanced prev (ok _, l) = (ok l.block, l)
advanced prev (err e, l) = (err e, record l { block = prev })

-- If the height cannot be persisted, the height in memory is rolled back.
unfoldable pub advance_block : ℕ → M ℕ
unfolding persist_block
advance_block n l = advanced l.block (persist_block (record l { block = (l.block + n) % u64_mod }))

-- `id := l.next; l.next++`
unfoldable pub take_id : M ℕ
take_id l = (ok l.next, record l { next = (l.next + 1) % u64_mod })

unfoldable pub mint_locked : String → ℕ → M ℕ
unfolding take_id persist_next Store.put
mint_locked owner value = do
  id ← take_id
  on_store (Store.put (utxo id) (utxo_json (record { owner = owner; value = value })))
  persist_next
  pure id

unfoldable pub mint : String → ℕ → M ℕ
unfolding mint_locked
mint owner value = mint_locked owner value

-- One key's share of a sum: keys of other kinds, and values that do not parse, are skipped.
abbrev pub share : (Utxo → Bool) → Option Value → ℕ
share counts none = 0
share counts (some (utxo_json u)) = if counts u then u.value else 0
share counts (some _) = 0

unfoldable pub sum_loop : (Utxo → Bool) → List LedgerKey → ℕ → M ℕ
unfolding Store.get
sum_loop counts [] sum = pure sum
sum_loop counts (k ∷ ks) sum =
    let more = sum_loop counts ks in
    if is_utxo_key k
    then (do b ← on_store (Store.get k); more ((sum + share counts b) % u64_mod))
    else more sum

unfoldable pub balance : String → M ℕ
unfolding Store.keys
balance owner = do ks ← on_store Store.keys; sum_loop (λ u. str_eq u.owner owner) ks 0

unfoldable pub total_supply : M ℕ
unfolding Store.keys
total_supply = do ks ← on_store Store.keys; sum_loop (λ _. true) ks 0

unfoldable pub get_utxo_locked : ℕ → M (Option Utxo)
unfolding Store.get
get_utxo_locked id = do
  b ← on_store (Store.get (utxo id))
  elim b [ none ↦ pure none | some v ↦ or_fail (as_utxo v) bad_json >>= λ u. pure (some u) ]

-- The change of `amt` out of a UTXO, if there is any.
unfoldable pub mint_change : Utxo → ℕ → M (Unit {0})
unfolding mint_locked
mint_change u amt =
    if ltb amt u.value then (mint_locked u.owner (u.value - amt) >>= λ _. pure tt) else pure tt

unfoldable pub settle : ℕ → String → ℕ → M ℕ
unfolding Store.get Store.delete mint_change mint_locked
settle input to amt = do
  economy_enabled
  b ← on_store (Store.get (utxo input))
  v ← or_fail b no_such_utxo
  u ← or_fail (as_utxo v) bad_json
  guard (leb amt u.value) insufficient_value
  on_store (Store.delete (utxo input))
  mint_change u amt
  mint_locked to amt
