-- ===== src/Ledger/Challenge.antt =====
-- daemon/ledger/settlement.go: `Challenge` on a solvent ledger.
use cerberus.Base.{
  ℕ, ◌+◌, ◌%◌, ◌<◌, ◌≡◌, ◌≢◌, refl, ap, sym, ◌∙◌, subst, true, false, some, String, arith, ok,
  u64_mod, ltb, if◌then◌else◌, str_eq_iff, Bool-cases, inl, inr,
}
use cerberus.Store.Bucket.{lookup}
use cerberus.Ledger.Types.{
  pending, pending_json, PendingSettlement, claim_slashed, ledger_key_order, same_key,
}
use cerberus.Ledger.Monad.{◌>>=◌, ◌>>◌, pure}
use cerberus.Ledger.Utxos.{mint_locked}
use cerberus.Ledger.Settlement.{
  challenge, check_fraud, FraudProof, Slash, window_elapsed, escrow_owner, is_pending,
}
use cerberus.Ledger.Live.{View, live, minted, mint_locked-live}
use cerberus.Ledger.Amounts.{Measure, supply, claims, owned, coin, due, amount, amount-minted}
use cerberus.Ledger.Sound.{Sound, minted-Sound, next-minted}
use cerberus.Ledger.Payment.{HasRoom}
use cerberus.Ledger.Claims.{Solvent, stake, stake-covered, Closed, close_claim}
use cerberus.Ledger.Finalize.{pending-minted, Closed-Filed}

-- The proof is about the claim's component, input and output, and has another output.
abbrev pub IsFraud : PendingSettlement → FraudProof → Type 0
IsFraud p f =
    (f.component_cid ≡ p.binding.component_cid)
    × (f.input_cid ≡ p.binding.input_cid)
    × (f.claimed_output_cid ≡ p.binding.output_cid)
    × (f.actual_output_cid ≢ p.binding.output_cid)

check_fraud-live :
    (p : PendingSettlement) (f : FraudProof) (x : View)
    → IsFraud p f
    → check_fraud p f (live x) ≡ (ok tt, live x)
unfolding check_fraud
check_fraud-live p f x h = ground (
  arith,
  str_eq_iff f.component_cid p.binding.component_cid,
  str_eq_iff f.input_cid p.binding.input_cid,
  str_eq_iff f.claimed_output_cid p.binding.output_cid,
  str_eq_iff f.actual_output_cid f.claimed_output_cid,
)

-- Refund and award.
awarded : PendingSettlement → String → View → View
awarded p challenger x =
    let refunded = minted p.consumer p.payment x in
    if ltb 0 p.bond then minted challenger p.bond refunded else refunded

module _ (p : PendingSettlement) (challenger : String) (x : View) where
  awarded-Sound : HasRoom 2 x → Sound x → Sound (awarded p challenger x)
  unfolding awarded
  awarded-Sound room s = elim (Bool-cases (ltb 0 p.bond)) [
    | inl e ↦ rw e (
        minted-Sound challenger p.bond _
          (omega (arith, next-minted p.consumer p.payment x (omega arith))) once)
    | inr e ↦ rw e once
  ]
    where
      once : Sound (minted p.consumer p.payment x)
      once = minted-Sound p.consumer p.payment x (omega arith) s

  amount-awarded :
      HasRoom 2 x
      → Sound x
      → (c : Measure)
      → amount c (awarded p challenger x).entries
        ≡ amount c x.entries + coin c p.consumer p.payment + coin c challenger p.bond
  unfolding awarded
  amount-awarded room s c = elim (Bool-cases (ltb 0 p.bond)) [
    | inl e ↦ rw e (
        omega (
          arith,
          first,
          amount-minted c challenger p.bond (minted p.consumer p.payment x)
              (once.fresh (minted p.consumer p.payment x).next (omega arith)),
        ))
    | inr e ↦ rw e (omega (arith, first, no_coin c, none_there e))
  ]
    where
      once : Sound (minted p.consumer p.payment x)
      once = minted-Sound p.consumer p.payment x (omega arith) s

      first :
          amount c (minted p.consumer p.payment x).entries
          ≡ amount c x.entries + coin c p.consumer p.payment
      first = amount-minted c p.consumer p.payment x (s.fresh _ (omega arith))

      none_there : ltb 0 p.bond ≡ false → coin c challenger p.bond ≡ coin c challenger 0
      none_there e = ap (coin c challenger) (ground arith)

      no_coin : (d : Measure) → coin d challenger 0 ≡ 0
      no_coin supply = refl
      no_coin claims = refl
      no_coin (owned name) = ground arith

  pending-awarded :
      (tx : ℕ)
      → lookup (pending tx) (awarded p challenger x).entries ≡ lookup (pending tx) x.entries
  unfolding awarded
  pending-awarded tx = ground (
    arith,
    pending-minted p.consumer p.payment tx x,
    pending-minted challenger p.bond tx (minted p.consumer p.payment x),
  )

  award-live :
      (if ltb 0 p.bond then (mint_locked challenger p.bond >>= λ _. pure tt) else pure tt)
        (live (minted p.consumer p.payment x))
      ≡ (ok tt, live (awarded p challenger x))
  unfolding awarded
  award-live = elim (Bool-cases (ltb 0 p.bond)) [
    | inl e ↦ rw (e, mint_locked-live challenger p.bond (minted p.consumer p.payment x))
    | inr e ↦ rw e
  ]

module _ (tx now : ℕ) (p : PendingSettlement) (f : FraudProof) (challenger : String)
    (x : View) where
  abbrev slashed : PendingSettlement
  slashed = record p { state = claim_slashed }

  abbrev verdict : Slash
  verdict = record { tx = tx; refunded = p.payment; bond_awarded = p.bond }

  challenge_lem :
      Solvent x
      → HasRoom 2 x
      → lookup (pending tx) x.entries ≡ some (pending_json p)
      → is_pending p.state ≡ true
      → window_elapsed p now ≡ false
      → IsFraud p f
      → (y : View) × (challenge tx f now challenger (live x) ≡ (ok verdict, live y))
        × Closed p slashed (awarded p challenger x) y
  unfolding challenge
  challenge_lem v room found due_now early fraud =
      let (covered, fits) = stake-covered tx p x v found due_now in
      let s = awarded-Sound p challenger x room v.sound in
      let gain = amount-awarded p challenger x room v.sound (owned escrow_owner) in
      let (z, y, e, g, k) =
        close_claim p slashed (awarded p challenger x) s
          (subst (λ t. lookup (pending t) (awarded p challenger x).entries ≡ some (pending_json p))
            (sym (v.filed tx p found)) (pending-awarded p challenger x tx ∙ found))
          refl (omega (arith, gain)) in
      (
        y,
        rw (
          found,
          due_now,
          early,
          ◌>>=◌,
          ◌>>◌,
          check_fraud-live p f x fraud,
          small fits,
          mint_locked-live p.consumer p.payment x,
          award-live p challenger x,
          e,
          g,
        ),
        k,
      )
    where
      small : stake p < u64_mod → stake p % u64_mod ≡ stake p
      small h = omega arith

  abbrev pub ChallengeSlashes : Type 0
  ChallengeSlashes =
      (y : View) × (challenge tx f now challenger (live x) ≡ (ok verdict, live y))
      × Solvent y
      × (amount supply y.entries ≡ amount supply x.entries)
      × ((who : String)
          → amount (owned who) y.entries + coin (owned who) escrow_owner (stake p)
            ≡ amount (owned who) x.entries
              + coin (owned who) p.consumer p.payment
              + coin (owned who) challenger p.bond)
      × (lookup (pending tx) y.entries ≡ some (pending_json slashed))

  -- Within the window, a proof of another output always slashes a pending claim of a solvent
  -- ledger: the consumer gets the payment back and the challenger the bond, both out of escrow, no
  -- other holding and no total changes, the claim is filed as slashed, and the ledger stays solvent.
  pub challenge_slashes :
      Solvent x
      → HasRoom 2 x
      → lookup (pending tx) x.entries ≡ some (pending_json p)
      → is_pending p.state ≡ true
      → window_elapsed p now ≡ false
      → IsFraud p f
      → ChallengeSlashes
  unfolding same_key
  challenge_slashes v room found due_now early fraud =
      let (y, e, k) = challenge_lem v room found due_now early fraud in
      let owed : due claims p ≡ stake p = rw due_now in
      let given = amount-awarded p challenger x room v.sound in
      let fewer = k.amounts (owned escrow_owner) in
      (
        y,
        e,
        record {
          sound = k.sound;
          filed =
              Closed-Filed p slashed (awarded p challenger x) y refl k
                (λ t r h. v.filed t r (sym (pending-awarded p challenger x t) ∙ h));
          backed =
              omega (
                arith,
                k.amounts claims,
                given claims,
                fewer,
                given (owned escrow_owner),
                v.backed,
              );
          bounded = omega (arith, k.amounts supply, given supply, v.bounded);
        },
        omega (arith, k.amounts supply, given supply),
        (λ who. omega (arith, k.amounts (owned who), given (owned who))),
        ground (arith, k.others (pending tx) refl, v.filed tx p found),
      )
