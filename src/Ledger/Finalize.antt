-- ===== src/Ledger/Finalize.antt =====
-- daemon/ledger/settlement.go: `Finalize` on a solvent ledger.
use cerberus.Base.{
  ℕ, ◌+◌, ◌%◌, ◌<◌, ◌≡◌, refl, sym, ◌∙◌, subst, true, some, String, arith, ok, u64_mod,
}
use cerberus.Store.Bucket.{lookup}
use cerberus.Ledger.Types.{
  pending, pending_json, PendingSettlement, claim_finalized, ledger_key_order, same_key,
}
use cerberus.Ledger.Monad.{◌>>=◌, ◌>>◌}
use cerberus.Ledger.Settlement.{finalize, window_elapsed, escrow_owner, is_pending}
use cerberus.Ledger.Live.{View, live, minted, mint_locked-live}
use cerberus.Ledger.Amounts.{Measure, supply, claims, owned, coin, due, amount, amount-minted}
use cerberus.Ledger.Sound.{minted-Sound, lookup-minted}
use cerberus.Ledger.Payment.{HasRoom}
use cerberus.Ledger.Claims.{Solvent, Filed, stake, stake-covered, Closed, close_claim}

-- A mint leaves the claims as they were, and does not take from anybody.
pub pending-minted :
    (o : String) (n tx : ℕ) (x : View)
    → lookup (pending tx) (minted o n x).entries ≡ lookup (pending tx) x.entries
unfolding same_key
pending-minted o n tx x = ground (arith, lookup-minted o n x (pending tx))

-- Closing a claim out of a filed ledger files the closed claim in its place.
pub Closed-Filed :
    (p q : PendingSettlement) (x y : View) → q.tx ≡ p.tx → Closed p q x y → Filed x → Filed y
unfolding same_key
Closed-Filed p q x y same k filed tx r found =
    ground (arith, k.others (pending tx) refl, filed tx r)

module _ (tx now : ℕ) (p : PendingSettlement) (x : View) where
  abbrev finalized : PendingSettlement
  finalized = record p { state = claim_finalized }

  finalize_lem :
      Solvent x
      → HasRoom 1 x
      → lookup (pending tx) x.entries ≡ some (pending_json p)
      → is_pending p.state ≡ true
      → window_elapsed p now ≡ true
      → (y : View) × (finalize tx now (live x) ≡ (ok p.payment, live y))
        × Closed p finalized (minted p.provider (stake p) x) y
  unfolding finalize
  finalize_lem v room found due_now elapsed =
      let (covered, fits) = stake-covered tx p x v found due_now in
      let s = minted-Sound p.provider (stake p) x room v.sound in
      let filed = v.filed tx p found in
      let (z, y, e, f, k) =
        close_claim p finalized (minted p.provider (stake p) x) s
          (subst
            (λ t.
              lookup (pending t) (minted p.provider (stake p) x).entries ≡ some (pending_json p))
            (sym filed) (pending-minted p.provider (stake p) tx x ∙ found))
          refl
          (omega (
            arith,
            amount-minted (owned escrow_owner) p.provider (stake p) x
                (v.sound.fresh x.next (omega arith)),
          )) in
      (
        y,
        rw (
          found,
          due_now,
          elapsed,
          ◌>>=◌,
          small fits,
          mint_locked-live p.provider (stake p) x,
          ◌>>◌,
          e,
          f,
        ),
        k,
      )
    where
      small : stake p < u64_mod → stake p % u64_mod ≡ stake p
      small h = omega arith

  abbrev pub FinalizePays : Type 0
  FinalizePays =
      (y : View) × (finalize tx now (live x) ≡ (ok p.payment, live y))
      × Solvent y
      × (amount supply y.entries ≡ amount supply x.entries)
      × ((who : String)
          → amount (owned who) y.entries + coin (owned who) escrow_owner (stake p)
            ≡ amount (owned who) x.entries + coin (owned who) p.provider (stake p))
      × (lookup (pending tx) y.entries ≡ some (pending_json finalized))

  -- On a solvent ledger, a pending claim whose window has passed is always paid out: the provider
  -- gets payment and bond out of escrow, no other holding and no total changes, the claim is filed
  -- as finalized, and the ledger stays solvent.
  pub finalize_pays :
      Solvent x
      → HasRoom 1 x
      → lookup (pending tx) x.entries ≡ some (pending_json p)
      → is_pending p.state ≡ true
      → window_elapsed p now ≡ true
      → FinalizePays
  unfolding same_key
  finalize_pays v room found due_now elapsed =
      let (y, e, k) = finalize_lem v room found due_now elapsed in
      let fresh = v.sound.fresh x.next (omega arith) in
      let owed : due claims p ≡ stake p = rw due_now in
      let paid = λ (c : Measure). amount-minted c p.provider (stake p) x fresh in
      let fewer = k.amounts (owned escrow_owner) in
      (
        y,
        e,
        record {
          sound = k.sound;
          filed =
              Closed-Filed p finalized (minted p.provider (stake p) x) y refl k
                (λ t r h. v.filed t r (sym (pending-minted p.provider (stake p) t x) ∙ h));
          backed =
              omega
                (arith, k.amounts claims, paid claims, fewer, paid (owned escrow_owner), v.backed);
          bounded = omega (arith, k.amounts supply, paid supply, v.bounded);
        },
        omega (arith, k.amounts supply, paid supply),
        (λ who. omega (arith, k.amounts (owned who), paid (owned who))),
        ground (arith, k.others (pending tx) refl, v.filed tx p found),
      )
