-- ===== src/Auth/Grant/Caveats.antt =====
-- daemon/auth/signedcap.go: two caveats that print alike.
use cerberus.Base.{
  ◌≡◌, refl, ap, sym, ◌∙◌, List, ◌∷◌, ◌++◌, map, Option, none, some, ok, arith, subst,
}
use mathlib.Core.List.{Memᴰ, append_assoc}
use cerberus.Auth.Grant.{Bytes, Quota, Caveat, Grant, caveat_key, check_narrower}
use cerberus.Auth.Grant.Narrow.{QuotaWithin, check_narrower_iff}
use cerberus.Auth.Grant.Paths.{same}

abbrev pub caveat : Bytes → Bytes → Caveat
caveat op val = record { op = op; val = val }

keys_meet :
    (a b c : Bytes)
    → caveat_key (caveat (a ++ (b'=' ∷ b)) c) ≡ caveat_key (caveat a (b ++ (b'=' ∷ c)))
keys_meet a b c = append_assoc a (b'=' ∷ b) (b'=' ∷ c)

QuotaWithin-self : (q : Option Quota) → QuotaWithin q q
QuotaWithin-self none = tt
QuotaWithin-self (some q) = ground arith

abbrev pub SwapAccepted : Grant → Bytes → Bytes → Bytes → List Caveat → Type 0
SwapAccepted parent a b c rest =
    check_narrower parent (record parent { caveats = caveat (a ++ (b'=' ∷ b)) c ∷ rest }) ≡ ok tt

-- A child passes the narrowing check though it replaced the parent's caveat `a` with value `b=c` by
-- a caveat `a=b` with value `c`: both print as `a=b=c`.
pub caveat_swapped :
    (parent : Grant) (a b c : Bytes) (rest : List Caveat)
    → parent.caveats ≡ caveat a (b ++ (b'=' ∷ c)) ∷ rest
    → SwapAccepted parent a b c rest
caveat_swapped parent a b c rest e = (check_narrower_iff parent _).1 (record {
  rights = λ r m. m;
  caveats = λ k m. subst (λ ks. Memᴰ k ks) keys m;
  path = same refl;
  quota = QuotaWithin-self parent.resource.quota;
  starts = omega arith;
  ends = ground arith;
})
  where
    keys : map caveat_key parent.caveats ≡ map caveat_key (caveat (a ++ (b'=' ∷ b)) c ∷ rest)
    keys =
        ap (λ cs. map caveat_key cs) e ∙ ap (λ k. k ∷ map caveat_key rest) (sym (keys_meet a b c))
