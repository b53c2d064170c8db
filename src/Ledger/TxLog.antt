-- ===== src/Ledger/TxLog.antt =====
-- daemon/ledger/txlog.go: the append-only log of compute transactions.
pub mod Order
use cerberus.Base.{
  ℕ, ◌+◌, ◌%◌, Bool, true, false, List, [], ◌∷◌, ◌++◌, Option, none, some, u64_mod, ltb, leb,
  length, take, ◌&&◌, if◌then◌else◌,
}
use cerberus.Store
use cerberus.Ledger.Types.{
  LedgerKey, computetx, meta_next_compute_tx, Value, compute_json, counter, ComputeTx,
  ComputeTxState, compute_blank, compute_recorded, as_compute, counter_or, ledger_key_order,
}
use cerberus.Ledger.Monad.{M, ◌>>=◌, ◌>>◌, pure, on_store}

unfoldable pub next_compute_tx_locked : M ℕ
unfolding Store.get Store.put
next_compute_tx_locked = do
  b ← on_store (Store.get meta_next_compute_tx)
  on_store (Store.put meta_next_compute_tx (counter ((counter_or 1 b + 1) % u64_mod)))
  pure (counter_or 1 b)

-- A blank state defaults to `recorded`.
abbrev pub or_recorded : ComputeTxState → ComputeTxState
or_recorded compute_blank = compute_recorded
or_recorded s = s

unfoldable pub record_compute_tx : ComputeTx → M ℕ
unfolding next_compute_tx_locked Store.put
record_compute_tx t = do
  id ← next_compute_tx_locked
  on_store
      (Store.put (computetx id) (compute_json (record t { id = id; state = or_recorded t.state })))
  pure id

abbrev pub is_compute_key : LedgerKey → Bool
is_compute_key (computetx id) = true
is_compute_key _ = false

abbrev pub parse_compute : Option Value → List ComputeTx
parse_compute none = []
parse_compute (some (compute_json t)) = t ∷ []
parse_compute (some _) = []

unfoldable pub collect : List LedgerKey → M (List ComputeTx)
unfolding Store.get
collect [] = pure []
collect (k ∷ ks) =
    let more = collect ks in
    if is_compute_key k
    then (do b ← on_store (Store.get k); out ← more; pure (parse_compute b ++ out))
    else more

-- sort.Slice by descending id.
unfoldable pub insert_newest : ComputeTx → List ComputeTx → List ComputeTx
insert_newest t [] = t ∷ []
insert_newest t (u ∷ us) = if ltb t.id u.id then u ∷ insert_newest t us else t ∷ u ∷ us

unfoldable pub newest_first : List ComputeTx → List ComputeTx
unfolding insert_newest
newest_first [] = []
newest_first (t ∷ ts) = insert_newest t (newest_first ts)

-- `limit` 0 stands for every limit that is not positive.
unfoldable pub limited : ℕ → List ComputeTx → List ComputeTx
limited limit out = if ltb 0 limit && ltb limit (length out) then take limit out else out

unfoldable pub compute_txs : ℕ → M (List ComputeTx)
unfolding Store.keys
compute_txs limit = do
  ks ← on_store Store.keys
  out ← collect ks
  pure (limited limit (newest_first out))
