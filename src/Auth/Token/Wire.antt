-- ===== src/Auth/Token/Wire.antt =====
-- daemon/auth/auth.go: the wire form of a minted token.
use cerberus.Base.{◌+◌, ◌%◌, ◌≡◌, refl, true, false, List, [], ◌∷◌, ◌++◌, some, ◌==◌, All, u64_mod}
use cerberus.Base.Int.{ℤ}
use cerberus.Auth.Token.{
  Bytes, Claims, Outside, Backend, Issuer, cut, minted_claims, mint, check_claims,
  check_unmarshalled, check_decoded, check_parts, verify,
}

-- What the package relies on: decoding undoes encoding, base64 has no dot, and a signature under the
-- issuer's key is accepted. Of encoding/json the first holds for claims whose text is valid UTF-8,
-- since it replaces other bytes.
pub record OutsideLaws (out : Outside) : Type 0 where
  pub unmarshal_marshal : (c : Claims) → out.unmarshal (out.marshal c) ≡ some c
  pub decode_encode : (b : Bytes) → out.decode (out.encode b) ≡ some b
  pub no_dot : (b : Bytes) → All (λ x. (x == b'.') ≡ false) (out.encode b)
  pub check_sign : (p : Bytes) → out.check p (out.sign p) ≡ true

cut-append :
    (xs ys : Bytes) → All (λ x. (x == b'.') ≡ false) xs → cut (xs ++ (b'.' ∷ ys)) ≡ some (xs, ys)
unfolding cut
cut-append [] ys n = refl
cut-append (x ∷ xs) ys n = rw (n.0, cut-append xs ys n.1) refl

module _ (out : Outside) (backend : Backend) (laws : OutsideLaws out) where
  pub verify-mint :
      (subject : Bytes) (rights : List Bytes) (resource : Bytes) (ttl now t : ℤ)
      (i j : Issuer out backend)
      → verify out backend (mint out backend subject rights resource ttl now i).0 t j
        ≡ check_claims out backend t j
            (minted_claims out backend ((i.serial + 1) % u64_mod) subject rights resource ttl now)
  unfolding verify mint check_parts check_decoded check_unmarshalled
  verify-mint subject rights resource ttl now t i j =
      let c : Claims =
        minted_claims out backend ((i.serial + 1) % u64_mod) subject rights resource ttl now in
      let payload : Bytes = out.marshal c in
      rw
        (
          cut-append (out.encode payload) (out.encode (out.sign payload)) (laws.no_dot payload),
          laws.decode_encode payload,
          laws.decode_encode (out.sign payload),
          laws.check_sign payload,
          laws.unmarshal_marshal c,
        )
        refl
