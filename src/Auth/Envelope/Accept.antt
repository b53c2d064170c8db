-- ===== src/Auth/Envelope/Accept.antt =====
-- daemon/auth/signedcap.go: `Verify` from the bytes of an envelope on.
use cerberus.Base.{
  length-drop, ℕ, ◌-◌, ◌≤◌, Bool, true, not, ◌≡◌, ◌↔◌, refl, sym, ap, ◌∙◌, subst, Option, Result,
  ok, err, ltb, ◌==◌, length, drop, take, if◌then◌else◌, arith, inl, inr, Bool-cases,
}
use cerberus.Base.Int.{ℤ}
use cerberus.Auth.Grant.{Bytes, AuthError, bad_envelope, Grant}
use cerberus.Auth.Grant.Verify.{Trusted, trusted, accepts}
use cerberus.Auth.Envelope.{
  canonical_bytes, encode_envelope, decode_envelope, then_verified, verify_envelope, re_encoded,
}
use cerberus.Auth.Envelope.Decoder.{decode_canonical}
use cerberus.Auth.Envelope.Canonical.{
  IsWireGrant, decode_envelope-encode_envelope, encode_envelope-decode_envelope, test_passed,
  long_enough,
}

re_encoded_sig :
    (pre sig : Bytes) (res : Result AuthError Grant) (g : Grant) (sig' : Bytes)
    → re_encoded pre sig res ≡ ok (g, sig')
    → sig ≡ sig'
re_encoded_sig pre sig (err e) g sig' h = cc
re_encoded_sig pre sig (ok g') g sig' h = ap (λ p. p.1) (test_passed h).1

signature_length :
    (env : Bytes) (g : Grant) (sig : Bytes) → decode_envelope env ≡ ok (g, sig) → length sig ≡ 64
unfolding decode_envelope
signature_length env g sig h = elim (Bool-cases (ltb (length env) 64)) [
  | inl q ↦ cc
  | inr q ↦
      let n : ℕ = length env - 64 in
      let e : drop n env ≡ sig =
        re_encoded_sig (take n env) (drop n env) (decode_canonical (take n env)) g sig
          (long_enough (sym q) h) in
      let l = length-drop n env in
      let m : 64 ≤ length env = ground arith in sym (ap length e) ∙ omega arith
]

-- The bytes are the grant's, signed under the issuer's key, and the grant may be relied on.
pub record Accepted (check : Bytes → Bytes → Bytes → Bool) (issuer_pub env : Bytes) (g : Grant)
    (now : ℤ) (is_revoked : Option (Bytes → Bool)) : Type 0 where
  pub sig : Bytes
  pub size : length sig ≡ 64
  pub encoded : env ≡ encode_envelope g sig
  pub trusted : Trusted (check issuer_pub (canonical_bytes g) sig) issuer_pub g now is_revoked

module _ (check : Bytes → Bytes → Bytes → Bool) (issuer_pub : Bytes) (now : ℤ)
    (is_revoked : Option (Bytes → Bool)) where
  decoded-Accepted :
      (env : Bytes) (g : Grant) (res : Result AuthError (Grant × Bytes))
      → decode_envelope env ≡ res
      → then_verified check issuer_pub now is_revoked res ≡ ok g
      → Accepted check issuer_pub env g now is_revoked
  decoded-Accepted env g (err e) d h = cc
  decoded-Accepted env g (ok (g', sig)) d h =
      let (t, same) =
        trusted (check issuer_pub (canonical_bytes g') sig) issuer_pub g' now is_revoked h in
      subst (λ k. Accepted check issuer_pub env k now is_revoked) same
        (record {
          sig = sig;
          size = signature_length env g' sig d;
          encoded = encode_envelope-decode_envelope env g' sig d;
          trusted = t;
        })

  key_checked :
      (res : Result AuthError Grant) (g : Grant)
      → if◌then◌else◌ {A = Result AuthError Grant}
          (not (length issuer_pub == 32))
          (err bad_envelope)
          res
        ≡ ok g
      → res ≡ ok g
  key_checked res g h = elim (Bool-cases (length issuer_pub == 32)) [ inl q ↦ cc | inr q ↦ cc ]

  Accepted-verify_envelope :
      (env : Bytes) (g : Grant)
      → IsWireGrant g
      → Accepted check issuer_pub env g now is_revoked
      → verify_envelope check issuer_pub env now is_revoked ≡ ok g
  unfolding verify_envelope
  Accepted-verify_envelope env g w a =
      let key : length issuer_pub == 32 ≡ true =
        ground (arith, w.issuer, ap length a.trusted.issuer) in
      rw (key, a.encoded, decode_envelope-encode_envelope g a.sig w a.size)
        (accepts (check issuer_pub (canonical_bytes g) a.sig) issuer_pub g now is_revoked a.trusted)

-- For a grant in wire form, `Verify` of an envelope returns the grant exactly when the envelope is
-- the grant's encoding with a signature of 64 bytes that the scheme accepts on its canonical bytes,
-- the presented key is its issuer's, the clock is inside its window, and no id it carries is revoked.
pub verify_envelope_iff :
    (check : Bytes → Bytes → Bytes → Bool) (issuer_pub env : Bytes) (g : Grant) (now : ℤ)
    (is_revoked : Option (Bytes → Bool))
    → IsWireGrant g
    → (verify_envelope check issuer_pub env now is_revoked ≡ ok g)
      ↔ Accepted check issuer_pub env g now is_revoked
unfolding verify_envelope
verify_envelope_iff check issuer_pub env g now is_revoked w = (
  λ h. decoded-Accepted check issuer_pub now is_revoked env g (decode_envelope env) refl (
      key_checked check issuer_pub now is_revoked
        (then_verified check issuer_pub now is_revoked (decode_envelope env)) g h),
  Accepted-verify_envelope check issuer_pub now is_revoked env g w,
)
