-- ===== src/Ledger/Amounts.antt =====
-- What the entries of a ledger add up to, and how each change of the entries moves these sums.
use cerberus.Base.{
  ℕ, ◌+◌, ◌%◌, ◌≡◌, refl, inl, inr, none, some, String, arith, u64_mod, if◌then◌else◌, str_eq,
  Option-cases,
}
use cerberus.Store.Bucket.{
  Entries, lookup, put_entry, total, total-put_entry_fresh, total-put_entry_old, total-remove,
}
use cerberus.Ledger.Types.{
  LedgerKey, utxo, pending, meta_next, meta_next_tx, Value, utxo_json, pending_json, counter, Utxo,
  PendingSettlement, ledger_key_order,
}
use cerberus.Ledger.Settlement.{is_pending}
use cerberus.Ledger.Live.{View, minted, spent, tx_taken, claimed, coin_json}

-- What is summed: the value of every UTXO, of one owner's, or what the pending claims are owed.
pub data Measure : Type 0 where
  supply claims : Measure
  owned : String → Measure

abbrev pub coin : Measure → String → ℕ → ℕ
coin supply owner value = value
coin claims owner value = 0
coin (owned name) owner value = if str_eq owner name then value else 0

abbrev pub due : Measure → PendingSettlement → ℕ
due claims p = if is_pending p.state then p.payment + p.bond else 0
due supply p = 0
due (owned name) p = 0

abbrev pub weigh : Measure → LedgerKey → Value → ℕ
weigh c (utxo id) (utxo_json u) = coin c u.owner u.value
weigh c (pending tx) (pending_json p) = due c p
weigh c (utxo _) _ = 0
weigh c (pending _) _ = 0
weigh c _ _ = 0

abbrev pub amount : Measure → Entries LedgerKey Value → ℕ
amount c m = total (weigh c) m

pub coin-add : (c : Measure) (o : String) (a b : ℕ) → coin c o (a + b) ≡ coin c o a + coin c o b
coin-add supply o a b = refl
coin-add claims o a b = omega arith
coin-add (owned name) o a b = ground arith

-- Keys that hold no value weigh nothing, whatever stood there before.
pub amount-put_weightless :
    (c : Measure) (k : LedgerKey) (v : Value) (m : Entries LedgerKey Value)
    → ((w : Value) → weigh c k w ≡ 0)
    → amount c (put_entry k v m) ≡ amount c m
amount-put_weightless c k v m h = elim (Option-cases (lookup k m)) [
  | inl e ↦ omega (arith, total-put_entry_fresh (weigh c) k v m e, h v)
  | inr (u, e) ↦ omega (arith, total-put_entry_old (weigh c) k v u m e, h v, h u)
]

pub amount-minted :
    (c : Measure) (o : String) (value : ℕ) (x : View)
    → lookup (utxo x.next) x.entries ≡ none
    → amount c (minted o value x).entries ≡ amount c x.entries + coin c o value
unfolding minted
amount-minted c o value x h = omega (
  arith,
  amount-put_weightless c meta_next (counter ((x.next + 1) % u64_mod))
      (put_entry (utxo x.next) (coin_json o value) x.entries) (λ w. refl),
  total-put_entry_fresh (weigh c) (utxo x.next) (coin_json o value) x.entries h,
)

pub amount-spent :
    (c : Measure) (id : ℕ) (u : Utxo) (x : View)
    → lookup (utxo id) x.entries ≡ some (utxo_json u)
    → amount c (spent id x).entries + coin c u.owner u.value ≡ amount c x.entries
amount-spent c id u x h = total-remove (weigh c) (utxo id) (utxo_json u) x.entries h

pub amount-tx_taken : (c : Measure) (x : View) → amount c (tx_taken x).entries ≡ amount c x.entries
amount-tx_taken c x = amount-put_weightless c meta_next_tx _ x.entries (λ w. refl)

pub amount-claimed_fresh :
    (c : Measure) (p : PendingSettlement) (x : View)
    → lookup (pending p.tx) x.entries ≡ none
    → amount c (claimed p x).entries ≡ amount c x.entries + due c p
amount-claimed_fresh c p x h =
    total-put_entry_fresh (weigh c) (pending p.tx) (pending_json p) x.entries h

pub amount-claimed_old :
    (c : Measure) (p q : PendingSettlement) (x : View)
    → lookup (pending p.tx) x.entries ≡ some (pending_json q)
    → amount c (claimed p x).entries + due c q ≡ amount c x.entries + due c p
amount-claimed_old c p q x h =
    total-put_entry_old (weigh c) (pending p.tx) (pending_json p) (pending_json q) x.entries h
