-- ===== src/Auth/Token/Widen.antt =====
-- daemon/auth/auth.go: the reach of an attenuated token.
use cerberus.Base.{◌+◌, ◌%◌, ◌≡◌, refl, ap, true, false, List, [], ok, arith, u64_mod}
use cerberus.Base.Bytes.{bytes_eq, has_prefix}
use cerberus.Base.Int.{ℤ, pos, ◌≤ℤ◌}
use cerberus.Auth.Token.{
  Bytes, Claims, Outside, Backend, Issuer, holds_right, allows, is_revoked, minted_claims, mint,
  expiry_after, verify, authorize, all_allowed, attenuate_checked, attenuate,
}
use cerberus.Auth.Token.Wire.{OutsideLaws}
use cerberus.Auth.Token.Check.{Granted, authorize-mint}

module _ (out : Outside) (backend : Backend) where
  -- What follows for the token that `Attenuate` gives out.
  abbrev pub Widened :
      Bytes
      → List Bytes
      → Bytes
      → ℤ
      → Issuer out backend
      → Bytes
      → Bytes
      → ℤ
      → Issuer out backend
      → Type 0
  Widened parent keep resource now i right asked t j =
      (token : Bytes) × (c : Claims) × ((attenuate out backend parent keep resource (pos 0) now i).0
        ≡ ok token)
      × (authorize out backend token right asked t j ≡ ok c)

module _ (out : Outside) (backend : Backend) (laws : OutsideLaws out) where
  attenuate-mint :
      (parent : Bytes) (keep : List Bytes) (resource : Bytes) (ttl now : ℤ) (i : Issuer out backend)
      (pc : Claims)
      → verify out backend parent now i ≡ ok pc
      → all_allowed out backend pc keep ≡ true
      → bytes_eq resource [] ≡ false
      → attenuate out backend parent keep resource ttl now i ≡ (
        ok (mint out backend pc.subject keep resource ttl now i).0,
        (mint out backend pc.subject keep resource ttl now i).1,
      )
  unfolding attenuate attenuate_checked
  attenuate-mint parent keep resource ttl now i pc v a n = rw (v, a, n) refl

  -- From any valid token, whatever its resource and its expiry, `Attenuate` with a resource and no
  -- time to live gives out a token that is accepted at every later time on all of that resource,
  -- for each right that was asked for and the parent held.
  pub attenuate_widens :
      (parent : Bytes) (keep : List Bytes) (resource : Bytes) (now : ℤ) (i : Issuer out backend)
      (pc : Claims)
      → verify out backend parent now i ≡ ok pc
      → all_allowed out backend pc keep ≡ true
      → bytes_eq resource [] ≡ false
      → (right asked : Bytes) (t : ℤ) (j : Issuer out backend) → holds_right keep right ≡ true
      → has_prefix asked resource ≡ true
      → now ≤ℤ t
      → is_revoked out backend j (out.format_uint ((i.serial + 1) % u64_mod)) ≡ false
      → Widened out backend parent keep resource now i right asked t j
  attenuate_widens parent keep resource now i pc v a n right asked t j h p l r = (
    (mint out backend pc.subject keep resource (pos 0) now i).0,
    c,
    ap (λ x. x.0) (attenuate-mint parent keep resource (pos 0) now i pc v a n),
    (authorize-mint out backend laws pc.subject keep resource (pos 0) now i j right asked t).1
        holds,
  )
    where
      c : Claims
      c = minted_claims out backend ((i.serial + 1) % u64_mod) pc.subject keep resource (pos 0) now

      holds : Granted out backend j c right asked t
      holds =
          unfold minted_claims expiry_after in
          record {
            started = l;
            not_ended = λ z. cc;
            unrevoked = r;
            allowed_by = unfold allows in ground (arith, h, p, n);
          }
