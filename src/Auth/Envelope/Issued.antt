-- ===== src/Auth/Envelope/Issued.antt =====
-- daemon/auth/signedcap.go: delegation over the wire.
use cerberus.Base.{
  Bool, true, ◌≡◌, refl, sym, ap, ◌∙◌, subst, Option, none, some, Result, ok, err, length,
}
use mathlib.Core.Option.{some_inj}
use cerberus.Base.Int.{ℤ}
use cerberus.Auth.Grant.{
  Bytes, AuthError, Grant, issue_attenuated, verify_child_decoded, then_narrower,
}
use cerberus.Auth.Grant.Verify.{Trusted, accepts}
use cerberus.Auth.Grant.Chain.{direct, Delegated-verify_child_decoded}
use cerberus.Auth.Envelope.{
  canonical_bytes, encode_envelope, attenuate_envelope, verify_child_envelope, then_signed, signed,
}
use cerberus.Auth.Envelope.Canonical.{IsWireGrant, decode_envelope-encode_envelope}
use cerberus.Auth.Envelope.Accept.{Accepted, verify_envelope_iff}

-- What the scheme promises under one key: a signature has 64 bytes and is accepted.
pub record KeyLaws (sign : Bytes → Option Bytes) (check : Bytes → Bytes → Bytes → Bool)
    (issuer_pub : Bytes) : Type 0 where
  pub size : (payload sig : Bytes) → sign payload ≡ some sig → length sig ≡ 64
  pub accepted :
      (payload sig : Bytes) → sign payload ≡ some sig → check issuer_pub payload sig ≡ true

abbrev payload : Result AuthError (Option Bytes) → Option Bytes
payload (ok o) = o
payload (err e) = none

-- The envelope that `then_signed` gives out carries a signature of the grant.
signed_inv :
    (sign : Bytes → Option Bytes) (g : Grant) (o : Option Bytes) (env : Bytes)
    → signed sign g o ≡ some env
    → (sig : Bytes) × (o ≡ some sig) × (env ≡ encode_envelope g sig)
signed_inv sign g none env h = cc
signed_inv sign g (some sig) env h = (sig, refl, sym (some_inj.0 h))

pub attenuate_envelope-parent :
    (sign : Bytes → Option Bytes) (issuer_pub id nonce psig : Bytes) (parent child : Grant)
    → IsWireGrant parent
    → length psig ≡ 64
    → attenuate_envelope sign issuer_pub id nonce (encode_envelope parent psig) child
      ≡ then_signed sign (issue_attenuated issuer_pub id nonce parent child)
unfolding attenuate_envelope
attenuate_envelope-parent sign issuer_pub id nonce psig parent child w l =
    rw (decode_envelope-encode_envelope parent psig w l) refl

-- Where the key store keeps the laws of the scheme, the envelope that `IssueAttenuated` makes of a
-- parent's envelope passes `VerifyChild` against the parent, under the issuer's key: at every clock
-- inside the child's window, and under every revocation set with none of the child's ids. The
-- parent and the child are in wire form.
pub attenuate-verify_child_envelope :
    (sign : Bytes → Option Bytes) (check : Bytes → Bytes → Bytes → Bool)
    (issuer_pub id nonce psig : Bytes) (parent child leaf : Grant) (env : Bytes) (now : ℤ)
    (is_revoked : Option (Bytes → Bool))
    → KeyLaws sign check issuer_pub
    → IsWireGrant parent
    → length psig ≡ 64
    → issue_attenuated issuer_pub id nonce parent child ≡ ok leaf
    → IsWireGrant leaf
    → attenuate_envelope sign issuer_pub id nonce (encode_envelope parent psig) child
      ≡ ok (some env)
    → Trusted true issuer_pub leaf now is_revoked
    → verify_child_envelope check issuer_pub env now is_revoked parent ≡ ok leaf
unfolding verify_child_envelope verify_child_decoded
attenuate-verify_child_envelope sign check issuer_pub id nonce psig parent child leaf env now
      is_revoked laws wp l made wl out t =
    let out' : then_signed sign (ok leaf) ≡ ok (some env) =
      ap (then_signed sign) (sym made)
      ∙ sym (attenuate_envelope-parent sign issuer_pub id nonce psig parent child wp l)
      ∙ out in
    let (sig, drawn, same) =
      signed_inv sign leaf (sign (canonical_bytes leaf)) env (ap payload out') in
    let good : check issuer_pub (canonical_bytes leaf) sig ≡ true =
      laws.accepted (canonical_bytes leaf) sig drawn in
    let a : Accepted check issuer_pub env leaf now is_revoked = record {
      sig = sig;
      size = laws.size (canonical_bytes leaf) sig drawn;
      encoded = same;
      trusted = subst (λ b. Trusted b issuer_pub leaf now is_revoked) (sym good) t;
    } in
    rw ((verify_envelope_iff check issuer_pub env leaf now is_revoked wl).1 a) (
      ap (then_narrower parent) (sym (accepts true issuer_pub leaf now is_revoked t))
      ∙ Delegated-verify_child_decoded true issuer_pub parent leaf now is_revoked
          (direct issuer_pub id nonce child made) t)
