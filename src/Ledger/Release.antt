-- ===== src/Ledger/Release.antt =====
-- daemon/ledger/settlement.go: the loop of `releaseEscrowLocked` over a snapshot of the keys.
use cerberus.Base.{
  ℕ, ◌+◌, ◌-◌, ◌≤◌, ◌≡◌, refl, sym, ◌∙◌, subst, false, Option, none, some, List, [], ◌∷◌, map,
  arith, ok, leb, ◌==◌, Bool-cases, inl, inr,
}
use Prim.Native.Nat.{min}
use cerberus.Store.Bucket.{put_entry, lookup, lookup-remove, lookup-put_entry}
use cerberus.Store.Sums.{
  total_at, weight_at, Absent, Unrepeated, Unrepeated-keys, total_at-agree, total_at-keys,
}
use cerberus.Ledger.Types.{
  LedgerKey, utxo, pending, computetx, meta_next, meta_block, meta_next_tx, meta_next_compute_tx,
  Value, utxo_json, pending_json, compute_json, counter, junk, ledger_key_order, same_key,
  is_utxo_key,
}
use cerberus.Ledger.Monad.{◌>>=◌}
use cerberus.Ledger.Utxos.{share}
use cerberus.Ledger.Settlement.{release_loop, release_escrow_locked, escrow_owner}
use cerberus.Ledger.Live.{View, live, spent, coin_json}
use cerberus.Ledger.Amounts.{Measure, supply, claims, owned, coin, weigh, amount, coin-add}
use cerberus.Ledger.Sound.{Sound}
use cerberus.Ledger.Escrow.{
  in_escrow, after_release, release_from-live, Released, spent-Released, reduced-Released,
}

Released-zero : (x : View) → Sound x → Released 0 x x
Released-zero x s = record {
  amounts = λ c. zero_coin c;
  others = λ k h. refl;
  sound = s;
  next = refl;
  block = refl;
}
  where
    zero_coin : (c : Measure) → amount c x.entries + coin c escrow_owner 0 ≡ amount c x.entries
    zero_coin supply = omega arith
    zero_coin claims = omega arith
    zero_coin (owned name) = ground arith

Released-trans : {a b : ℕ} {x y z : View} → Released a x y → Released b y z → Released (a + b) x z
Released-trans {a} {b} p q = record {
  amounts = λ c. omega (arith, p.amounts c, q.amounts c, coin-add c escrow_owner a b);
  others = λ k h. q.others k h ∙ p.others k h;
  sound = q.sound;
  next = q.next ∙ p.next;
  block = q.block ∙ p.block;
}

step-Released :
    (id r : ℕ) (o : Option Value) (x : View)
    → Sound x
    → lookup (utxo id) x.entries ≡ o
    → Released (min r (share in_escrow o)) x (after_release id r o x)
step-Released id r none x s e = rest
  where
    rest : Released (min r 0) x x
    rest = subst (λ n. Released n x x) (omega arith) (Released-zero x s)
step-Released id r (some (utxo_json u)) x s e = elim (Bool-cases (in_escrow u)) [
  | inr other ↦ rw other (subst (λ n. Released n x x) (omega arith) (Released-zero x s))
  | inl mine ↦ elim (Bool-cases (leb u.value r)) [
    | inl all ↦
        rw (mine, all)
          (subst (λ n. Released n x (spent id x)) (ground arith) (spent-Released id r u x s e mine))
    | inr part ↦
        rw (mine, part)
          (subst
            (λ n. Released n x (record x {
              entries = put_entry (utxo id) (coin_json u.owner (u.value - r)) x.entries;
            }))
            (ground arith) (reduced-Released id r u x s e mine (ground arith)))
  ]
]
step-Released id r (some (pending_json p)) x s e =
    subst (λ n. Released n x x) (omega arith) (Released-zero x s)
step-Released id r (some (compute_json p)) x s e =
    subst (λ n. Released n x x) (omega arith) (Released-zero x s)
step-Released id r (some (counter p)) x s e =
    subst (λ n. Released n x x) (omega arith) (Released-zero x s)
step-Released id r (some (junk p)) x s e =
    subst (λ n. Released n x x) (omega arith) (Released-zero x s)

-- A step leaves every other key alone.
step-agree :
    (id r : ℕ) (o : Option Value) (x : View)
    → Sound x
    → (j : LedgerKey) → same_key (utxo id) j ≡ false
    → lookup j (after_release id r o x).entries ≡ lookup j x.entries
step-agree id r none x s j h = refl
step-agree id r (some (utxo_json u)) x s j h = ground (
  arith,
  lookup-remove (utxo id) j x.entries s.distinct,
  lookup-put_entry (utxo id) j (coin_json u.owner (u.value - r)) x.entries,
)
step-agree id r (some (pending_json p)) x s j h = refl
step-agree id r (some (compute_json p)) x s j h = refl
step-agree id r (some (counter p)) x s j h = refl
step-agree id r (some (junk p)) x s j h = refl

abbrev escrow_at : LedgerKey → Option Value → ℕ
escrow_at = weight_at (weigh (owned escrow_owner))

escrow_at-share : (id : ℕ) (o : Option Value) → escrow_at (utxo id) o ≡ share in_escrow o
escrow_at-share id none = refl
escrow_at-share id (some (utxo_json u)) = refl
escrow_at-share id (some (pending_json p)) = refl
escrow_at-share id (some (compute_json p)) = refl
escrow_at-share id (some (counter p)) = refl
escrow_at-share id (some (junk p)) = refl

-- Only a UTXO holds anything of an owner's.
free :
    (k : LedgerKey)
    → ((v : Value) → weigh (owned escrow_owner) k v ≡ 0)
    → (o : Option Value) → escrow_at k o ≡ 0
free k h none = refl
free k h (some v) = h v

pending_free : (tx : ℕ) (o : Option Value) → escrow_at (pending tx) o ≡ 0
pending_free tx none = refl
pending_free tx (some (utxo_json u)) = refl
pending_free tx (some (pending_json p)) = refl
pending_free tx (some (compute_json p)) = refl
pending_free tx (some (counter p)) = refl
pending_free tx (some (junk p)) = refl

abbrev Releases : List LedgerKey → ℕ → View → Type 0
Releases ks r x = (y : View) × (release_loop ks r (live x) ≡ (ok 0, live y)) × Released r x y

skip_key :
    (k : LedgerKey) (ks : List LedgerKey) (r : ℕ) (x : View)
    → is_utxo_key k ≡ false
    → (r == 0) ≡ false
    → Releases ks r x
    → Releases (k ∷ ks) r x
unfolding release_loop
skip_key k ks r x h more (y, e, p) = (y, rw (more, h) e, p)

take_key :
    (id : ℕ) (ks : List LedgerKey) (r : ℕ) (x : View)
    → Sound x
    → (r == 0) ≡ false
    → (let o = lookup (utxo id) x.entries in
        Releases ks (r - share in_escrow o) (after_release id r o x))
    → Releases (utxo id ∷ ks) r x
unfolding release_loop
take_key id ks r x s h (y, e, p) = (
  y,
  rw (h, ◌>>=◌, release_from-live id r (lookup (utxo id) x.entries) x) e,
  subst (λ n. Released n x y) (omega arith)
      (Released-trans (step-Released id r (lookup (utxo id) x.entries) x s refl) p),
)

abbrev Enough : List LedgerKey → ℕ → View → Type 0
Enough ks r x = r ≤ total_at (weigh (owned escrow_owner)) ks x.entries

-- One key, given the loop over the others from any state.
release_head :
    (k : LedgerKey) (ks : List LedgerKey) (r : ℕ) (x : View)
    → Sound x
    → Absent k ks
    → Enough (k ∷ ks) r x
    → (r == 0) ≡ false
    → ((r' : ℕ) (x' : View) → Sound x' → Enough ks r' x' → Releases ks r' x')
    → Releases (k ∷ ks) r x
release_head (utxo id) ks r x s a le more rest =
    let o = lookup (utxo id) x.entries in
    let agree =
      total_at-agree (weigh (owned escrow_owner)) (utxo id) ks x.entries
        (after_release id r o x).entries (λ j h. sym (step-agree id r o x s j h)) a in
    take_key id ks r x s more (
      rest (r - share in_escrow o) (after_release id r o x) (step-Released id r o x s refl).sound
        (omega (arith, escrow_at-share id o, agree)))
release_head (pending tx) ks r x s a le more rest =
    skip_key (pending tx) ks r x refl more
      (rest r x s (omega (arith, pending_free tx (lookup (pending tx) x.entries))))
release_head (computetx id) ks r x s a le more rest =
    skip_key (computetx id) ks r x refl more (
      rest r x s (omega (arith, free (computetx id) (λ v. refl) (lookup (computetx id) x.entries))))
release_head meta_next ks r x s a le more rest =
    skip_key meta_next ks r x refl more
      (rest r x s (omega (arith, free meta_next (λ v. refl) (lookup meta_next x.entries))))
release_head meta_block ks r x s a le more rest =
    skip_key meta_block ks r x refl more
      (rest r x s (omega (arith, free meta_block (λ v. refl) (lookup meta_block x.entries))))
release_head meta_next_tx ks r x s a le more rest =
    skip_key meta_next_tx ks r x refl more
      (rest r x s (omega (arith, free meta_next_tx (λ v. refl) (lookup meta_next_tx x.entries))))
release_head meta_next_compute_tx ks r x s a le more rest =
    skip_key meta_next_compute_tx ks r x refl more (
      rest r x s (
        omega
          (arith, free meta_next_compute_tx (λ v. refl) (lookup meta_next_compute_tx x.entries))))

-- With enough in escrow under the keys, the loop ends with nothing left to take.
release_loop-live :
    (ks : List LedgerKey) (r : ℕ) (x : View)
    → Sound x
    → Unrepeated ks
    → Enough ks r x
    → Releases ks r x
release_loop-live [] r x s d le = (
  x,
  unfold release_loop in ground arith,
  subst (λ n. Released n x x) (omega arith) (Released-zero x s),
)
release_loop-live (k ∷ ks) r x s d le = elim (Bool-cases (r == 0)) [
  | inl done ↦ (
    x,
    unfold release_loop in ground arith,
    subst (λ n. Released n x x) (ground arith) (Released-zero x s),
  )
  | inr more ↦
      release_head k ks r x s d.0 le more (λ r' x' s' le'. release_loop-live ks r' x' s' d.1 le')
]

-- Enough in escrow: releasing succeeds, takes exactly `amt` of it, and touches nothing but UTXOs.
pub release_escrow-live :
    (amt : ℕ) (x : View)
    → Sound x
    → amt ≤ amount (owned escrow_owner) x.entries
    → (y : View) × (release_escrow_locked amt (live x) ≡ (ok tt, live y)) × Released amt x y
unfolding release_escrow_locked
release_escrow-live amt x s le = elim (Bool-cases (amt == 0)) [
  | inl done ↦ (x, rw done, subst (λ n. Released n x x) (ground arith) (Released-zero x s))
  | inr more ↦
      let ks = map (λ (e : LedgerKey × Value). e.0) x.entries in
      let (y, e, p) =
        release_loop-live ks amt x s (Unrepeated-keys x.entries s.distinct)
          (omega (arith, total_at-keys (weigh (owned escrow_owner)) x.entries s.distinct)) in
      (y, rw (more, ◌>>=◌, e), p)
]
