-- ===== src/Auth/Grant/Narrow.antt =====
-- daemon/auth/signedcap.go: what the narrowing check accepts, and its transitivity.
use cerberus.Base.{
  ℕ, ◌≤◌, ◌≡◌, ◌≢◌, ◌↔◌, inl, inr, refl, sym, Bool, true, false, not, ◌&&◌, List, [], ◌∷◌, map,
  Option, none, some, Result, ok, err, arith, if◌then◌else◌, Bool-cases,
}
use mathlib.Core.List.{Memᴰ}
use mathlib.Core.List.Memᴰ
use cerberus.Base.Bytes.{bytes_eq, bytes_eq_iff}
use cerberus.Base.Int.{ℤ, ltb_ℤ, is_zero, ◌≤ℤ◌}
use cerberus.Auth.Grant.{
  Bytes, Quota, Grant, contains, all_in, caveat_key, has_path_prefix, bound_narrower,
  quota_narrower, expiry_narrower, check_narrower, AuthError, not_attenuated,
}
use cerberus.Auth.Grant.Paths.{Below, whole, Below-trans, has_path_prefix_iff}

to_Mem : (xs : List Bytes) (a : Bytes) → contains xs a ≡ true → Memᴰ a xs
unfolding contains
to_Mem [] a h = cc
to_Mem (x ∷ xs) a h = elim (Bool-cases (bytes_eq x a)) [
  | inl e ↦ Memᴰ.head (sym ((bytes_eq_iff x a).0 e))
  | inr e ↦ Memᴰ.tail (to_Mem xs a (rw e at h))
]

from_Mem : (xs : List Bytes) (a : Bytes) → Memᴰ a xs → contains xs a ≡ true
unfolding contains
from_Mem [] a m = elim m [ ]
from_Mem (x ∷ xs) a (Memᴰ.head e) = rw ((bytes_eq_iff x a).1 (sym e)) refl
from_Mem (x ∷ xs) a (Memᴰ.tail m) = ground (arith, from_Mem xs a m)

abbrev pub Within : List Bytes → List Bytes → Type 0
Within xs ys = (a : Bytes) → Memᴰ a xs → Memᴰ a ys

all_in_iff : (xs ys : List Bytes) → (all_in xs ys ≡ true) ↔ Within xs ys
unfolding all_in
all_in_iff xs ys = (to xs, from xs)
  where
    to : (xs : List Bytes) → all_in xs ys ≡ true → Within xs ys
    to [] h a m = elim m [ ]
    to (x ∷ xs) h a (Memᴰ.head e) = Memᴰ.cast e (to_Mem ys x (ground arith))
    to (x ∷ xs) h a (Memᴰ.tail m) = to xs (ground arith) a m

    from : (xs : List Bytes) → Within xs ys → all_in xs ys ≡ true
    from [] w = refl
    from (x ∷ xs) w =
        ground (arith, from_Mem ys x (w x (Memᴰ.head refl)), from xs (λ a m. w a (Memᴰ.tail m)))

-- A bound that the parent sets is set by the child, no higher.
abbrev pub Bounded : ℕ → ℕ → Type 0
Bounded parent child = parent ≢ 0 → (child ≢ 0) × (child ≤ parent)

-- A parent's quota is met by a quota of the child's, bound by bound.
abbrev pub QuotaWithin : Option Quota → Option Quota → Type 0
QuotaWithin none child = Unit {0}
QuotaWithin (some p) none = ⊥
QuotaWithin (some p) (some c) =
    Bounded p.bytes c.bytes × Bounded p.flops c.flops × Bounded p.secs c.secs

abbrev pub ExpiresWithin : ℤ → ℤ → Type 0
ExpiresWithin parent child = is_zero parent ≡ false → (is_zero child ≡ false) × (child ≤ℤ parent)

-- What the check compares: rights, the keys that caveats print, paths, quotas and windows. It does not
-- compare the kinds and the nodes of the two resources.
pub record Narrower (parent child : Grant) : Type 0 where
  pub rights : Within child.rights parent.rights
  pub caveats : Within (map caveat_key parent.caveats) (map caveat_key child.caveats)
  pub path : Below parent.resource.path child.resource.path
  pub quota : QuotaWithin parent.resource.quota child.resource.quota
  pub starts : parent.not_before ≤ℤ child.not_before
  pub ends : ExpiresWithin parent.expiry child.expiry

Bounded-iff : (p c : ℕ) → (bound_narrower p c ≡ true) ↔ Bounded p c
Bounded-iff p c = ground arith

ExpiresWithin-iff : (p c : ℤ) → (expiry_narrower p c ≡ true) ↔ ExpiresWithin p c
ExpiresWithin-iff p c = ground arith

quota_narrower_iff : (p c : Option Quota) → (quota_narrower p c ≡ true) ↔ QuotaWithin p c
unfolding quota_narrower
quota_narrower_iff none c = (λ _. tt, λ _. refl)
quota_narrower_iff (some p) none = (λ h. cc, λ w. absurd w)
quota_narrower_iff (some p) (some c) =
    ground
      (arith, Bounded-iff p.bytes c.bytes, Bounded-iff p.flops c.flops, Bounded-iff p.secs c.secs)

-- Six refusals in a row.
abbrev six_checks : Bool → Bool → Bool → Bool → Bool → Bool → Result AuthError (Unit {0})
six_checks a b c d e f =
    if a
    then err not_attenuated
    else if b
    then err not_attenuated
    else if c
    then err not_attenuated
    else if d
    then err not_attenuated
    else if e
    then err not_attenuated
    else if f
    then err not_attenuated
    else ok tt

checks_pass :
    (a b c d e f : Bool)
    → six_checks a b c d e f ≡ ok tt
    → (a ≡ false) × (b ≡ false) × (c ≡ false) × (d ≡ false) × (e ≡ false) × (f ≡ false)
checks_pass true b c d e f h = cc
checks_pass false true c d e f h = cc
checks_pass false false true d e f h = cc
checks_pass false false false true e f h = cc
checks_pass false false false false true f h = cc
checks_pass false false false false false true h = cc
checks_pass false false false false false false h = (refl, refl, refl, refl, refl, refl)

module _ (parent child : Grant) where
  abbrev caveats_kept : Bool
  caveats_kept = all_in (map caveat_key parent.caveats) (map caveat_key child.caveats)

  abbrev path_escapes : Bool
  path_escapes =
      not (bytes_eq parent.resource.path [])
      && not (has_path_prefix child.resource.path parent.resource.path)

  path_escapes_iff : (path_escapes ≡ false) ↔ Below parent.resource.path child.resource.path
  path_escapes_iff = (
    (λ h. elim (Bool-cases (bytes_eq parent.resource.path [])) [
      | inl e ↦ whole ((bytes_eq_iff parent.resource.path []).0 e)
      | inr e ↦ path_iff.0 (ground arith)
    ]),
    λ b. ground (arith, path_iff.1 b),
  )
    where
      path_iff :
          (has_path_prefix child.resource.path parent.resource.path ≡ true)
          ↔ Below parent.resource.path child.resource.path
      path_iff = has_path_prefix_iff child.resource.path parent.resource.path

  accepted : check_narrower parent child ≡ ok tt → Narrower parent child
  unfolding check_narrower
  accepted h =
      let (r, c, p, q, s, e) =
        checks_pass (not (all_in child.rights parent.rights)) (not caveats_kept) path_escapes
          (not (quota_narrower parent.resource.quota child.resource.quota))
          (ltb_ℤ child.not_before parent.not_before)
          (not (expiry_narrower parent.expiry child.expiry)) h in
      record {
        rights = (all_in_iff child.rights parent.rights).0 (ground arith);
        caveats =
            (all_in_iff (map caveat_key parent.caveats) (map caveat_key child.caveats)).0
              (ground arith);
        path = path_escapes_iff.0 p;
        quota = (quota_narrower_iff parent.resource.quota child.resource.quota).0 (ground arith);
        starts = ground arith;
        ends = (ExpiresWithin-iff parent.expiry child.expiry).0 (ground arith);
      }

  accepts : Narrower parent child → check_narrower parent child ≡ ok tt
  unfolding check_narrower
  accepts n =
      let escapes : path_escapes ≡ false = path_escapes_iff.1 n.path in
      let early : ltb_ℤ child.not_before parent.not_before ≡ false = ground arith in
      rw
        (
          (all_in_iff child.rights parent.rights).1 n.rights,
          (all_in_iff (map caveat_key parent.caveats) (map caveat_key child.caveats)).1 n.caveats,
          escapes,
          (quota_narrower_iff parent.resource.quota child.resource.quota).1 n.quota,
          early,
          (ExpiresWithin-iff parent.expiry child.expiry).1 n.ends,
        )
        refl

-- The check at a delegation accepts exactly the children that hold no right the parent lacks, have for
-- every caveat of the parent one with the same printed key, stay below the parent's path at a
-- segment's boundary, keep every bound of its quota, and stay inside its window. Kinds and nodes of
-- the resources may differ.
pub check_narrower_iff :
    (parent child : Grant) → (check_narrower parent child ≡ ok tt) ↔ Narrower parent child
check_narrower_iff parent child = (accepted parent child, accepts parent child)

QuotaWithin-trans : (a b c : Option Quota) → QuotaWithin a b → QuotaWithin b c → QuotaWithin a c
QuotaWithin-trans none b c h k = tt
QuotaWithin-trans (some a) none c h k = absurd h
QuotaWithin-trans (some a) (some b) none h k = absurd k
QuotaWithin-trans (some a) (some b) (some c) h k = ground arith

Narrower-trans : {a b c : Grant} → Narrower a b → Narrower b c → Narrower a c
Narrower-trans {a} {b} {c} m n = record {
  rights = λ r i. m.rights r (n.rights r i);
  caveats = λ k i. n.caveats k (m.caveats k i);
  path = Below-trans m.path n.path;
  quota = QuotaWithin-trans a.resource.quota b.resource.quota c.resource.quota m.quota n.quota;
  starts = omega (arith, m.starts, n.starts);
  ends = ground (arith, m.ends, n.ends);
}

-- A grant narrower than one that is narrower than a third is narrower than the third, so a chain
-- of accepted delegations stays within its root in all that the check compares.
pub check_narrower_trans :
    (a b c : Grant)
    → check_narrower a b ≡ ok tt
    → check_narrower b c ≡ ok tt
    → check_narrower a c ≡ ok tt
check_narrower_trans a b c h k =
    (check_narrower_iff a c).1
      (Narrower-trans ((check_narrower_iff a b).0 h) ((check_narrower_iff b c).0 k))
