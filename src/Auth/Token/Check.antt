-- ===== src/Auth/Token/Check.antt =====
-- daemon/auth/auth.go: when a minted token is accepted.
use cerberus.Base.{
  ◌+◌, ◌%◌, ◌≡◌, ◌↔◌, ◌⊎◌, inl, inr, refl, ap, subst, Bool, true, false, not, ◌&&◌, List, Result,
  ok, err, arith, if◌then◌else◌, Bool-cases, u64_mod,
}
use cerberus.Base.Int.{ℤ, ltb_ℤ, is_zero, ◌≤ℤ◌, ◌<ℤ◌}
use cerberus.Auth.Token.{
  Bytes, Claims, TokenError, lacks_right, not_yet_valid, expired, revoked, Outside, Backend, Issuer,
  allows, is_revoked, minted_claims, mint, check_claims, allowed, authorize,
}
use cerberus.Auth.Token.Wire.{OutsideLaws, verify-mint}

module _ (out : Outside) (backend : Backend) where
  -- What a token's claims must satisfy at a time, for a right on a resource.
  pub record Granted (j : Issuer out backend) (c : Claims) (right resource : Bytes) (t : ℤ)
      : Type 0 where
    pub started : c.not_before ≤ℤ t
    pub not_ended : is_zero c.expiry ≡ false → t <ℤ c.expiry
    pub unrevoked : is_revoked out backend j c.id ≡ false
    pub allowed_by : allows c right resource ≡ true

  abbrev or_else : Claims → Result TokenError Claims → Claims
  or_else d (ok c) = c
  or_else d (err e) = d

  -- Three refusals and the right's.
  pub check_claims-ok :
      (t : ℤ) (j : Issuer out backend) (c d : Claims)
      → check_claims out backend t j c ≡ ok d
      → (ltb_ℤ t c.not_before ≡ false)
        × ((not (is_zero c.expiry) && not (ltb_ℤ t c.expiry)) ≡ false)
        × (is_revoked out backend j c.id ≡ false)
        × (c ≡ d)
  unfolding check_claims
  check_claims-ok t j c d h =
      passed (ltb_ℤ t c.not_before) (not (is_zero c.expiry) && not (ltb_ℤ t c.expiry))
        (is_revoked out backend j c.id) h
    where
      passed :
          (x y z : Bool)
          → (if x
              then err not_yet_valid
              else if y
              then err expired
              else if z
              then err revoked
              else ok c)
            ≡ ok d
          → (x ≡ false) × (y ≡ false) × (z ≡ false) × (c ≡ d)
      passed true y z h = cc
      passed false true z h = cc
      passed false false true h = cc
      passed false false false h = (refl, refl, refl, ap (or_else c) h)

  pub allowed-ok :
      (right resource : Bytes) (r : Result TokenError Claims) (d : Claims)
      → allowed out backend right resource r ≡ ok d
      → (r ≡ ok d) × (allows d right resource ≡ true)
  unfolding allowed
  allowed-ok right resource (err e) d h = cc
  allowed-ok right resource (ok c) d h = split (Bool-cases (allows c right resource)) h
    where
      split :
          (allows c right resource ≡ true) ⊎ (allows c right resource ≡ false)
          → (if not (allows c right resource) then err lacks_right else ok c) ≡ ok d
          → (◌≡◌ {A = Result TokenError Claims} (ok c) (ok d)) × (allows d right resource ≡ true)
      split (inl a) h =
          let same : ◌≡◌ {A = Result TokenError Claims} (ok c) (ok d) = rw a at h in
          (same, subst (λ x. allows x right resource ≡ true) (ap (or_else c) same) a)
      split (inr a) h = cc (rw a at h)

  pub granted :
      (j : Issuer out backend) (c : Claims) (right resource : Bytes) (t : ℤ)
      → Granted j c right resource t
      → allowed out backend right resource (check_claims out backend t j c) ≡ ok c
  unfolding allowed check_claims
  granted j c right resource t g =
      let early : ltb_ℤ t c.not_before ≡ false = ground (arith, g.started) in
      let late : not (is_zero c.expiry) && not (ltb_ℤ t c.expiry) ≡ false =
        ground (arith, g.not_ended) in
      rw (early, late, g.unrevoked, g.allowed_by) refl

  accepted :
      (j : Issuer out backend) (c : Claims) (right resource : Bytes) (t : ℤ)
      → allowed out backend right resource (check_claims out backend t j c) ≡ ok c
      → Granted j c right resource t
  accepted j c right resource t h =
      let (checked, a) = allowed-ok right resource (check_claims out backend t j c) c h in
      let (x, y, z, q) = check_claims-ok t j c c checked in
      record { started = ground arith; not_ended = ground arith; unrevoked = z; allowed_by = a }

  -- The issuer accepts a token that it minted, for a right on a resource and at a time, exactly when
  -- the time is in the token's window, its id is not revoked, and its claims allow the right there.
  pub authorize-mint :
      OutsideLaws out
      → (subject : Bytes) (rights : List Bytes) (resource : Bytes) (ttl now : ℤ)
        (i j : Issuer out backend)
      → (right asked : Bytes) (t : ℤ)
      → let c : Claims =
          minted_claims out backend ((i.serial + 1) % u64_mod) subject rights resource ttl now in
        (authorize out backend
            (mint out backend subject rights resource ttl now i).0
            right
            asked
            t
            j
          ≡ ok c)
        ↔ Granted j c right asked t
  unfolding authorize
  authorize-mint laws subject rights resource ttl now i j right asked t =
      let c : Claims =
        minted_claims out backend ((i.serial + 1) % u64_mod) subject rights resource ttl now in
      rw (verify-mint out backend laws subject rights resource ttl now t i j)
        (accepted j c right asked t, granted j c right asked t)
