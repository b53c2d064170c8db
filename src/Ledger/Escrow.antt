-- ===== src/Ledger/Escrow.antt =====
-- daemon/ledger/settlement.go: what releasing escrow takes.
use cerberus.Base.{
  ℕ, ◌+◌, ◌-◌, ◌≤◌, ◌≡◌, refl, ap, Bool, true, false, Option, none, some, arith, ok, leb,
  if◌then◌else◌, str_eq, str_eq_iff,
}
use cerberus.Store.Bucket.{
  lookup, put_entry, lookup-remove, lookup-put_entry, total-put_entry_old, Distinct-put_entry,
}
use cerberus.Ledger.Types.{
  LedgerKey, utxo, pending, meta_next_tx, Value, utxo_json, pending_json, compute_json, counter,
  junk, Utxo, ledger_key_order, is_utxo_key, same_key,
}
use cerberus.Ledger.Utxos.{share}
use cerberus.Ledger.Settlement.{release_from, escrow_owner, parse_utxo}
use cerberus.Ledger.Live.{View, live, spent, coin_json}
use cerberus.Ledger.Amounts.{Measure, coin, weigh, amount, coin-add, amount-spent}
use cerberus.Ledger.Sound.{Sound, spent-Sound}

abbrev pub in_escrow : Utxo → Bool
in_escrow u = str_eq u.owner escrow_owner

-- The entries after one UTXO has given what it can towards `remaining`.
abbrev pub after_release : ℕ → ℕ → Option Value → View → View
after_release id remaining (some (utxo_json u)) x =
    if in_escrow u
    then if leb u.value remaining then spent id x else record x {
      entries = put_entry (utxo id) (coin_json u.owner (u.value - remaining)) x.entries;
    }
    else x
after_release id remaining _ x = x

pub release_from-live :
    (id remaining : ℕ) (o : Option Value) (x : View)
    → release_from (utxo id) remaining (parse_utxo o) (live x)
      ≡ (ok (remaining - share in_escrow o), live (after_release id remaining o x))
unfolding release_from
release_from-live id r none x = ground arith
release_from-live id r (some (utxo_json u)) x = ground arith
release_from-live id r (some (pending_json p)) x = ground arith
release_from-live id r (some (compute_json p)) x = ground arith
release_from-live id r (some (counter p)) x = ground arith
release_from-live id r (some (junk p)) x = ground arith

-- `y` is `x` with `amt` less in escrow, and nothing else changed but UTXOs.
pub record Released (amt : ℕ) (x y : View) : Type 0 where
  pub amounts : (c : Measure) → amount c y.entries + coin c escrow_owner amt ≡ amount c x.entries
  pub others : (k : LedgerKey) → is_utxo_key k ≡ false → lookup k y.entries ≡ lookup k x.entries
  pub sound : Sound y
  pub next : y.next ≡ x.next
  pub block : y.block ≡ x.block

reduced-amount :
    (c : Measure) (id r : ℕ) (u : Utxo) (x : View)
    → lookup (utxo id) x.entries ≡ some (utxo_json u)
    → r ≤ u.value
    → amount c (put_entry (utxo id) (coin_json u.owner (u.value - r)) x.entries) + coin c u.owner r
      ≡ amount c x.entries
reduced-amount c id r u x found le = omega (
  arith,
  total-put_entry_old (weigh c) (utxo id) (coin_json u.owner (u.value - r)) (utxo_json u) x.entries
      found,
  coin-add c u.owner (u.value - r) r,
  ap (coin c u.owner) rest,
)
  where
    rest : (u.value - r) + r ≡ u.value
    rest = omega arith

module _ (id r : ℕ) (u : Utxo) (x : View) (s : Sound x)
    (found : lookup (utxo id) x.entries ≡ some (utxo_json u)) where
  pub spent-Released : str_eq u.owner escrow_owner ≡ true → Released u.value x (spent id x)
  unfolding same_key
  spent-Released mine = record {
    amounts = λ c. rw (← (str_eq_iff u.owner escrow_owner).0 mine) (amount-spent c id u x found);
    others = λ k h. ground (arith, lookup-remove (utxo id) k x.entries s.distinct);
    sound = spent-Sound id x s;
    next = refl;
    block = refl;
  }

  pub reduced-Released :
      str_eq u.owner escrow_owner ≡ true
      → r ≤ u.value
      → Released r x
          (record x { entries = put_entry (utxo id) (coin_json u.owner (u.value - r)) x.entries })
  unfolding same_key
  reduced-Released mine le =
      let put = λ (k : LedgerKey).
        lookup-put_entry (utxo id) k (coin_json u.owner (u.value - r)) x.entries in
      record {
        amounts = λ c.
            rw (← (str_eq_iff u.owner escrow_owner).0 mine) (reduced-amount c id r u x found le);
        others = λ k h. ground (arith, put k);
        sound = record {
          distinct = Distinct-put_entry _ _ _ s.distinct;
          fresh = λ j h. ground (arith, put (utxo j), s.fresh j, s.fresh id);
          fresh_tx = λ tx h. ground (arith, put (pending tx), put meta_next_tx, s.fresh_tx tx);
        };
        next = refl;
        block = refl;
      }
