-- ===== src/Ledger/Refusals.antt =====
-- daemon/ledger: what the ledger's methods refuse, and the window of a dispute.
use cerberus.Base.{
  ℕ, ◌+◌, ◌-◌, ◌≤◌, ◌<◌, ◌≡◌, ◌↔◌, ◌⊎◌, refl, sym, ◌∙◌, true, false, Option, none, some, String,
  arith, err, u64_mod, leb, str_eq, str_eq_iff, Bool-cases, inl, inr, leb→le,
}
use Prim.Native.Nat.{min}
use cerberus.Store.Bucket.{lookup}
use cerberus.Ledger.Types.{
  utxo, pending, Value, utxo_json, pending_json, compute_json, counter, junk, PendingSettlement,
  SettlementBinding, Ledger, Error, ledger_key_order, economy_disabled, window_open, window_closed,
  not_pending, binding_mismatch, output_mismatch, outputs_match,
}
use cerberus.Ledger.Monad.{◌>>◌}
use cerberus.Ledger.Utxos.{settle}
use cerberus.Ledger.Settlement.{
  open_optimistic, finalize, challenge, check_fraud, window_elapsed, is_pending, FraudProof,
}
use cerberus.Ledger.Live.{View, live}
use cerberus.Ledger.Payment.{settle-live}
use cerberus.Ledger.Challenge.{IsFraud}

-- A settlement that returns an error has left the ledger as it was.
module _ (input : ℕ) (to : String) (amt : ℕ) (x : View) where
  settle_kept :
      (o : Option Value) (e : Error) (l : Ledger)
      → lookup (utxo input) x.entries ≡ o
      → settle input to amt (live x) ≡ (err e, l)
      → l ≡ live x
  unfolding settle
  settle_kept none e l found h = cc (rw found at h)
  settle_kept (some (utxo_json u)) e l found h = elim (Bool-cases (leb amt u.value)) [
    | inl le ↦ cc (settle-live input u to amt x found (leb→le _ _ le), h)
    | inr gt ↦ cc (rw (found, gt) at h)
  ]
  settle_kept (some (pending_json p)) e l found h = cc (rw found at h)
  settle_kept (some (compute_json p)) e l found h = cc (rw found at h)
  settle_kept (some (counter p)) e l found h = cc (rw found at h)
  settle_kept (some (junk p)) e l found h = cc (rw found at h)

  -- On a live ledger a settlement that returns an error leaves the ledger as it was.
  pub settle_refused :
      (e : Error) (l : Ledger) → settle input to amt (live x) ≡ (err e, l) → l ≡ live x
  settle_refused e l h = settle_kept (lookup (utxo input) x.entries) e l refl h

-- The window closes at the saturating sum of its opening height and its length.
pub window_elapsed_iff :
    (p : PendingSettlement) (now : ℕ)
    → p.opened_at < u64_mod
    → p.dispute_block < u64_mod
    → (window_elapsed p now ≡ true) ↔ (min (p.opened_at + p.dispute_block) (u64_mod - 1) ≤ now)
unfolding window_elapsed
window_elapsed_iff p now ho hd = ground arith

-- At every height, a pending claim is open either to `Finalize` or to `Challenge`, never to both:
-- the other of the two is refused, and a refusal changes nothing.
finalize_or_challenge :
    (tx now : ℕ) (p : PendingSettlement) (f : FraudProof) (challenger : String) (x : View)
    → lookup (pending tx) x.entries ≡ some (pending_json p)
    → is_pending p.state ≡ true
    → ((window_elapsed p now ≡ true)
        × (challenge tx f now challenger (live x) ≡ (err window_closed, live x)))
      ⊎ ((window_elapsed p now ≡ false) × (finalize tx now (live x) ≡ (err window_open, live x)))
unfolding finalize challenge
finalize_or_challenge tx now p f challenger x found due_now =
    elim (Bool-cases (window_elapsed p now)) [
      | inl e ↦ inl (e, rw (found, due_now, e))
      | inr e ↦ inr (e, rw (found, due_now, e))
    ]

-- A claim that is finalized or slashed stays so: both ends refuse it, and change nothing.
closed_claim_final :
    (tx now : ℕ) (p : PendingSettlement) (f : FraudProof) (challenger : String) (x : View)
    → lookup (pending tx) x.entries ≡ some (pending_json p)
    → is_pending p.state ≡ false
    → (finalize tx now (live x) ≡ (err not_pending, live x))
      × (challenge tx f now challenger (live x) ≡ (err not_pending, live x))
unfolding finalize challenge
closed_claim_final tx now p f challenger x found closed = (rw (found, closed), rw (found, closed))

-- In the Sealed profile no settlement is made or ended, whatever the store does.
pub sealed_refuses :
    (l : Ledger)
    → l.enabled ≡ false
    → ((input : ℕ) (to : String) (amt : ℕ) → settle input to amt l ≡ (err economy_disabled, l))
      × ((now pi : ℕ) (c : String) (pay bi : ℕ) (q : String) (bond d : ℕ) (b : SettlementBinding)
          → open_optimistic now pi c pay bi q bond d b l ≡ (err economy_disabled, l))
      × ((tx now : ℕ) → finalize tx now l ≡ (err economy_disabled, l))
      × ((tx : ℕ) (f : FraudProof) (now : ℕ) (who : String)
          → challenge tx f now who l ≡ (err economy_disabled, l))
unfolding settle open_optimistic finalize challenge
sealed_refuses l h = (
  (λ input to amt. ground arith),
  (λ now pi c pay bi q bond d b. ground arith),
  (λ tx now. ground arith),
  (λ tx f now who. ground arith),
)

check_fraud_cases :
    (p : PendingSettlement) (f : FraudProof) (x : View)
    → IsFraud p f ⊎ ((e : Error) × (check_fraud p f (live x) ≡ (err e, live x)))
unfolding check_fraud
check_fraud_cases p f x = elim (Bool-cases (str_eq f.component_cid p.binding.component_cid)) [
  | inr e ↦ inr (binding_mismatch, rw e)
  | inl a ↦ elim (Bool-cases (str_eq f.input_cid p.binding.input_cid)) [
    | inr e ↦ inr (binding_mismatch, rw (a, e))
    | inl b ↦ elim (Bool-cases (str_eq f.claimed_output_cid p.binding.output_cid)) [
      | inr e ↦ inr (output_mismatch, rw (a, b, e))
      | inl c ↦ elim (Bool-cases (str_eq f.actual_output_cid f.claimed_output_cid)) [
        | inl e ↦ inr (outputs_match, rw (a, b, c, e))
        | inr d ↦ inl (
          (str_eq_iff _ _).0 a,
          (str_eq_iff _ _).0 b,
          (str_eq_iff _ _).0 c,
          λ same. cc (
            (str_eq_iff f.actual_output_cid f.claimed_output_cid).1
                (same ∙ sym ((str_eq_iff f.claimed_output_cid p.binding.output_cid).0 c)),
            d,
          ),
        )
      ]
    ]
  ]
]

-- Whatever a challenger submits against a live ledger's pending claim in its window, either it is
-- a proof of another output for the claim's component and input, or it is refused with an error
-- and changes nothing.
pub challenge_needs-IsFraud :
    (tx now : ℕ) (p : PendingSettlement) (f : FraudProof) (challenger : String) (x : View)
    → lookup (pending tx) x.entries ≡ some (pending_json p)
    → is_pending p.state ≡ true
    → window_elapsed p now ≡ false
    → IsFraud p f ⊎ ((e : Error) × (challenge tx f now challenger (live x) ≡ (err e, live x)))
unfolding challenge
challenge_needs-IsFraud tx now p f challenger x found due_now early =
    elim (check_fraud_cases p f x) [
      | inl fraud ↦ inl fraud
      | inr (e, refused) ↦ inr (e, rw (found, due_now, early, ◌>>◌, refused))
    ]
