-- ===== src/Auth/Grant/Verify.antt =====
-- daemon/auth/signedcap.go: what `Verify` accepts.
use cerberus.Base.{
  ◌≡◌, ◌↔◌, refl, ap, sym, subst, Bool, true, false, not, ◌&&◌, List, [], ◌∷◌, Option, none, some,
  Result, ok, err, arith, if◌then◌else◌,
}
use mathlib.Core.Option.{some_inj}
use mathlib.Core.List.{Memᴰ}
use cerberus.Base.Bytes.{bytes_eq, bytes_eq_iff}
use cerberus.Base.Int.{ℤ, ltb_ℤ, is_zero, ◌≤ℤ◌, ◌<ℤ◌}
use cerberus.Auth.Grant.{
  Bytes, AuthError, bad_signature, not_yet_valid, expired, revoked, wrong_issuer, Grant,
  parent_revoked, any_revoked, revoked_in, verify_decoded,
}

-- No id that the grant carries is revoked: its own, its ancestors', its parent's.
abbrev pub Unrevoked : Option (Bytes → Bool) → Grant → Type 0
Unrevoked none g = Unit {0}
Unrevoked (some is_revoked) g =
    (is_revoked g.id ≡ false)
    × ((a : Bytes) → Memᴰ a g.ancestors → is_revoked a ≡ false)
    × ((p : Bytes) → g.parent ≡ some p → is_revoked p ≡ false)

-- What a holder may rely on after `Verify`.
pub record Trusted (signed : Bool) (issuer_pub : Bytes) (g : Grant) (now : ℤ)
    (is_revoked : Option (Bytes → Bool)) : Type 0 where
  pub issuer : issuer_pub ≡ g.issuer
  pub signature : signed ≡ true
  pub started : g.not_before ≤ℤ now
  pub not_ended : is_zero g.expiry ≡ false → now <ℤ g.expiry
  pub unrevoked : Unrevoked is_revoked g

module _ (is_revoked : Bytes → Bool) where
  none_revoked :
      (ids : List Bytes)
      → any_revoked is_revoked ids ≡ false
      → (a : Bytes) → Memᴰ a ids
      → is_revoked a ≡ false
  unfolding any_revoked
  none_revoked [] h a m = elim m [ ]
  none_revoked (x ∷ ids) h a (Memᴰ.head e) = rw e (ground arith)
  none_revoked (x ∷ ids) h a (Memᴰ.tail m) = none_revoked ids (ground arith) a m

  not_any :
      (ids : List Bytes)
      → ((a : Bytes) → Memᴰ a ids → is_revoked a ≡ false)
      → any_revoked is_revoked ids ≡ false
  unfolding any_revoked
  not_any [] h = refl
  not_any (x ∷ ids) h = ground (arith, h x (Memᴰ.head refl), not_any ids (λ a m. h a (Memᴰ.tail m)))

  pub any_found :
      (ids : List Bytes) (a : Bytes)
      → Memᴰ a ids
      → is_revoked a ≡ true
      → any_revoked is_revoked ids ≡ true
  unfolding any_revoked
  any_found [] a m h = elim m [ ]
  any_found (x ∷ ids) a (Memᴰ.head e) h = rw (sym e, h) refl
  any_found (x ∷ ids) a (Memᴰ.tail m) h = ground (arith, any_found ids a m h)

parent_revoked_iff :
    (r : Bytes → Bool) (o : Option Bytes)
    → (parent_revoked r o ≡ false) ↔ ((p : Bytes) → o ≡ some p → r p ≡ false)
parent_revoked_iff r none = (λ _ p e. cc, λ _. refl)
parent_revoked_iff r (some p) = (λ h q e. subst (λ t. r t ≡ false) (some_inj.0 e) h, λ h. h p refl)

Unrevoked-iff : (r : Option (Bytes → Bool)) (g : Grant) → (revoked_in r g ≡ false) ↔ Unrevoked r g
Unrevoked-iff none g = (λ _. tt, λ _. refl)
Unrevoked-iff (some r) g = (
  λ h. (
    ground arith,
    none_revoked r g.ancestors (ground arith),
    (parent_revoked_iff r g.parent).0 (ground arith),
  ),
  λ u. ground (arith, u.0, not_any r g.ancestors u.1, (parent_revoked_iff r g.parent).1 u.2),
)

abbrev five_checks : Bool → Bool → Bool → Bool → Bool → Grant → Result AuthError Grant
five_checks a b c d e g =
    if a
    then err wrong_issuer
    else if b
    then err bad_signature
    else if c
    then err not_yet_valid
    else if d
    then err expired
    else if e
    then err revoked
    else ok g

abbrev or_else : Grant → Result AuthError Grant → Grant
or_else d (ok g) = g
or_else d (err e) = d

checks_pass :
    (a b c d e : Bool) (g h : Grant)
    → five_checks a b c d e g ≡ ok h
    → (a ≡ false) × (b ≡ false) × (c ≡ false) × (d ≡ false) × (e ≡ false) × (g ≡ h)
checks_pass true b c d e g h p = cc
checks_pass false true c d e g h p = cc
checks_pass false false true d e g h p = cc
checks_pass false false false true e g h p = cc
checks_pass false false false false true g h p = cc
checks_pass false false false false false g h p = (refl, refl, refl, refl, refl, ap (or_else g) p)

module _ (signed : Bool) (issuer_pub : Bytes) (g : Grant) (now : ℤ)
    (is_revoked : Option (Bytes → Bool)) where
  pub trusted :
      {h : Grant}
      → verify_decoded signed issuer_pub g now is_revoked ≡ ok h
      → Trusted signed issuer_pub g now is_revoked × (g ≡ h)
  unfolding verify_decoded
  trusted {h} v =
      let (a, b, c, d, e, same) =
        checks_pass (not (bytes_eq issuer_pub g.issuer)) (not signed) (ltb_ℤ now g.not_before)
          (not (is_zero g.expiry) && not (ltb_ℤ now g.expiry)) (revoked_in is_revoked g) g h v in
      (
        record {
          issuer = (bytes_eq_iff issuer_pub g.issuer).0 (ground arith);
          signature = ground arith;
          started = ground arith;
          not_ended = ground arith;
          unrevoked = (Unrevoked-iff is_revoked g).0 e;
        },
        same,
      )

  pub accepts :
      Trusted signed issuer_pub g now is_revoked
      → verify_decoded signed issuer_pub g now is_revoked ≡ ok g
  unfolding verify_decoded
  accepts t =
      let early : ltb_ℤ now g.not_before ≡ false = ground (arith, t.started) in
      let late : not (is_zero g.expiry) && not (ltb_ℤ now g.expiry) ≡ false =
        ground (arith, t.not_ended) in
      rw
        (
          (bytes_eq_iff issuer_pub g.issuer).1 t.issuer,
          t.signature,
          early,
          late,
          (Unrevoked-iff is_revoked g).1 t.unrevoked,
        )
        refl

  pub refused :
      Trusted signed issuer_pub g now none
      → revoked_in is_revoked g ≡ true
      → verify_decoded signed issuer_pub g now is_revoked ≡ err revoked
  unfolding verify_decoded
  refused t h =
      let early : ltb_ℤ now g.not_before ≡ false = ground (arith, t.started) in
      let late : not (is_zero g.expiry) && not (ltb_ℤ now g.expiry) ≡ false =
        ground (arith, t.not_ended) in
      rw ((bytes_eq_iff issuer_pub g.issuer).1 t.issuer, t.signature, early, late, h) refl

-- `Verify` returns the grant exactly when the presented key is its issuer's, the signature is
-- valid, the clock is inside its window, and no id it carries is revoked.
pub verify_decoded_iff :
    (signed : Bool) (issuer_pub : Bytes) (g : Grant) (now : ℤ) (is_revoked : Option (Bytes → Bool))
    → (verify_decoded signed issuer_pub g now is_revoked ≡ ok g)
      ↔ Trusted signed issuer_pub g now is_revoked
verify_decoded_iff signed issuer_pub g now is_revoked = (
  λ v. (trusted signed issuer_pub g now is_revoked v).0,
  accepts signed issuer_pub g now is_revoked,
)
