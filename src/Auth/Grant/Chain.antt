-- ===== src/Auth/Grant/Chain.antt =====
-- daemon/auth/signedcap.go: chains of grants that `IssueAttenuated` makes.
use cerberus.Base.{
  ◌≡◌, ◌≢◌, refl, ap, sym, subst, Bool, true, false, [], ◌∷◌, ◌++◌, Option, none, some, Result, ok,
  err, arith, if◌then◌else◌,
}
use mathlib.Core.List.{Memᴰ}
use mathlib.Core.List.Memᴰ
use cerberus.Base.Int.{ℤ}
use cerberus.Auth.Grant.{
  Bytes, AuthError, revoked, Grant, check_narrower, verify_decoded, verify_child_decoded, checked,
  attenuated, issued, then_issued, issue_attenuated,
}
use cerberus.Auth.Grant.Narrow.{check_narrower_trans}
use cerberus.Auth.Grant.Verify.{Trusted, any_found, refused, trusted, verify_decoded_iff}

-- `leaf` was issued from `root` by one or more calls of `IssueAttenuated`, each by any issuer.
pub data Delegated (root : Grant) : Grant → Type 0 where
  direct :
      (issuer_pub id nonce : Bytes) (child : Grant) {leaf : Grant}
      → issue_attenuated issuer_pub id nonce root child ≡ ok leaf
      → Delegated root leaf
  further :
      (issuer_pub id nonce : Bytes) {parent : Grant} (child : Grant) {leaf : Grant}
      → Delegated root parent
      → issue_attenuated issuer_pub id nonce parent child ≡ ok leaf
      → Delegated root leaf

abbrev or_else : Grant → Result AuthError Grant → Grant
or_else d (ok g) = g
or_else d (err e) = d

checked_ok :
    (p c g : Grant) (r : Result AuthError (Unit {0})) → checked p c r ≡ ok g → (r ≡ ok tt) × (c ≡ g)
checked_ok p c g (ok u) h = (refl, ap (or_else c) h)
checked_ok p c g (err e) h = cc

-- What a grant takes from the one it was issued from.
record Child (parent child : Grant) : Type 0 where
  pub narrower : check_narrower parent child ≡ ok tt
  pub lineage : child.ancestors ≡ parent.ancestors ++ (parent.id ∷ [])

attenuated-Child : (parent child g : Grant) → attenuated parent child ≡ ok g → Child parent g
unfolding attenuated
attenuated-Child parent child g h =
    let (narrow, same) = checked_ok parent _ g _ h in
    subst (λ g. Child parent g) same (record { narrower = narrow; lineage = refl })

if_ok :
    (t : Bool) (e : AuthError) (f leaf : Grant) → (if t then err e else ok f) ≡ ok leaf → f ≡ leaf
if_ok true e f leaf h = cc
if_ok false e f leaf h = ap (or_else f) h

issued-Child :
    (issuer_pub id nonce : Bytes) (parent g leaf : Grant)
    → Child parent g
    → issued issuer_pub id nonce g ≡ ok leaf
    → Child parent leaf
unfolding issued check_narrower
issued-Child issuer_pub id nonce parent g leaf c h =
    subst (λ leaf. Child parent leaf) (if_ok _ _ _ leaf h)
      (record { narrower = c.narrower; lineage = c.lineage })

issue_attenuated-Child :
    (issuer_pub id nonce : Bytes) (parent child leaf : Grant)
    → issue_attenuated issuer_pub id nonce parent child ≡ ok leaf
    → Child parent leaf
unfolding issue_attenuated
issue_attenuated-Child issuer_pub id nonce parent child leaf h =
    split (attenuated parent child) refl h
  where
    split :
        (r : Result AuthError Grant)
        → attenuated parent child ≡ r
        → then_issued issuer_pub id nonce r ≡ ok leaf
        → Child parent leaf
    split (ok g) e h =
        issued-Child issuer_pub id nonce parent g leaf (attenuated-Child parent child g e) h
    split (err x) e h = cc

Delegated-check_narrower :
    {root leaf : Grant} → Delegated root leaf → check_narrower root leaf ≡ ok tt
Delegated-check_narrower {root} {leaf} (direct k i n c h) =
    (issue_attenuated-Child k i n root c leaf h).narrower
Delegated-check_narrower {root} {leaf} (further k i n {parent} c d h) =
    check_narrower_trans root parent leaf (Delegated-check_narrower d)
      (issue_attenuated-Child k i n parent c leaf h).narrower

Delegated-ancestors : {root leaf : Grant} → Delegated root leaf → Memᴰ root.id leaf.ancestors
Delegated-ancestors {root} {leaf} (direct k i n c h) =
    subst (λ ids. Memᴰ root.id ids) (sym (issue_attenuated-Child k i n root c leaf h).lineage)
      (Memᴰ.append_right root.ancestors (Memᴰ.head refl))
Delegated-ancestors {root} {leaf} (further k i n {parent} c d h) =
    subst (λ ids. Memᴰ root.id ids) (sym (issue_attenuated-Child k i n parent c leaf h).lineage)
      (Memᴰ.append_left (parent.id ∷ []) (Delegated-ancestors d))

-- A grant at the end of a chain of delegations that `Verify` trusts is accepted by `VerifyChild`
-- against every grant above it in the chain, not only against its parent.
pub Delegated-verify_child_decoded :
    (signed : Bool) (issuer_pub : Bytes) (root leaf : Grant) (now : ℤ)
    (is_revoked : Option (Bytes → Bool))
    → Delegated root leaf
    → Trusted signed issuer_pub leaf now is_revoked
    → verify_child_decoded signed issuer_pub leaf now is_revoked root ≡ ok leaf
unfolding verify_child_decoded
Delegated-verify_child_decoded signed issuer_pub root leaf now is_revoked d t =
    rw ((verify_decoded_iff signed issuer_pub leaf now is_revoked).1 t, Delegated-check_narrower d)
      refl

-- Revoking a grant denies every grant below it: none verifies, whatever key, signature and clock
-- are presented, and one that would verify otherwise is refused as revoked.
pub revoked_root_denied :
    (signed : Bool) (issuer_pub : Bytes) (root leaf : Grant) (now : ℤ) (is_revoked : Bytes → Bool)
    → Delegated root leaf
    → is_revoked root.id ≡ true
    → ((g : Grant) → verify_decoded signed issuer_pub leaf now (some is_revoked) ≢ ok g)
      × (Trusted signed issuer_pub leaf now none
          → verify_decoded signed issuer_pub leaf now (some is_revoked) ≡ err revoked)
revoked_root_denied signed issuer_pub root leaf now is_revoked d r = (
  (λ g v.
      let unrevoked = (trusted signed issuer_pub leaf now (some is_revoked) v).0.unrevoked in
      cc (r, unrevoked.1 root.id (Delegated-ancestors d))),
  λ t.
      refused signed issuer_pub leaf now (some is_revoked) t
        (ground (arith, any_found is_revoked leaf.ancestors root.id (Delegated-ancestors d) r)),
)
