-- ===== src/Auth/Grant/Paths.antt =====
-- daemon/auth/signedcap.go: paths below a path.
use cerberus.Base.{
  ◌-◌, ◌≡◌, ◌↔◌, inl, inr, refl, ap, sym, ◌∙◌, subst, true, false, not, ◌||◌, [], ◌∷◌, ◌++◌, arith,
  ltb, length, get_elem?, Bool-cases, length-append,
}
use mathlib.Core.List.{append_assoc}
use cerberus.Base.Bytes.{bytes_eq, bytes_eq_iff, has_prefix, has_prefix-append, has_prefix_rest}
use cerberus.Auth.Grant.{Bytes, at_slash, has_path_prefix}

-- `sub` is `base`, or lies below it at a segment's boundary.
pub data Below (base : Bytes) (sub : Bytes) : Type 0 where
  whole : base ≡ [] → Below base sub
  same : sub ≡ base → Below base sub
  inside :
      (rest : Bytes)
      → sub ≡ base ++ rest
      → at_slash (get_elem? base (length base - 1)) || at_slash (get_elem? rest 0) ≡ true
      → Below base sub

get_elem?-append : (xs ys : Bytes) → get_elem? (xs ++ ys) (length xs) ≡ get_elem? ys 0
get_elem?-append [] ys = refl
get_elem?-append (x ∷ xs) ys = get_elem?-append xs ys

to_Below : (sub base : Bytes) → has_path_prefix sub base ≡ true → Below base sub
unfolding has_path_prefix
to_Below sub base h = elim (Bool-cases (bytes_eq base [])) [
  | inl e ↦ whole ((bytes_eq_iff base []).0 e)
  | inr e ↦ elim (Bool-cases (bytes_eq sub base)) [
    | inl s ↦ same ((bytes_eq_iff sub base).0 s)
    | inr s ↦ elim (Bool-cases (ltb (length sub) (length base) || not (has_prefix sub base))) [
      | inl t ↦ cc (rw (e, s, t) at h)
      | inr t ↦
          let (rest, eq) = has_prefix_rest sub base (ground (arith, t)) in
          let next : get_elem? sub (length base) ≡ get_elem? rest 0 =
            rw eq (get_elem?-append base rest) in
          inside rest eq (rw (e, s, t, next) at h)
    ]
  ]
]

from_Below : (sub base : Bytes) → Below base sub → has_path_prefix sub base ≡ true
unfolding has_path_prefix
from_Below sub base (whole e) = rw ((bytes_eq_iff base []).1 e) refl
from_Below sub base (same e) = ground (arith, (bytes_eq_iff sub base).1 e)
from_Below sub base (inside rest e h) = elim (Bool-cases (bytes_eq base [] || bytes_eq sub base)) [
  | inl s ↦ rw s refl
  | inr s ↦
      let next : get_elem? sub (length base) ≡ get_elem? rest 0 =
        rw e (get_elem?-append base rest) in
      let prefix : has_prefix sub base ≡ true = rw e (has_prefix-append base rest) in
      let fits : ltb (length sub) (length base) ≡ false =
        rw (e, length-append base rest) (ground arith) in
      rw (s, fits, prefix, next) h
]

pub has_path_prefix_iff : (sub base : Bytes) → (has_path_prefix sub base ≡ true) ↔ Below base sub
has_path_prefix_iff sub base = (to_Below sub base, from_Below sub base)

at_slash-first :
    (xs ys : Bytes) → at_slash (get_elem? xs 0) ≡ true → at_slash (get_elem? (xs ++ ys) 0) ≡ true
at_slash-first [] ys h = cc
at_slash-first (x ∷ xs) ys h = h

append-empty : (xs ys : Bytes) → xs ++ ys ≡ [] → xs ≡ []
append-empty [] ys e = refl
append-empty (x ∷ xs) ys e = cc

pub Below-trans : {a b c : Bytes} → Below a b → Below b c → Below a c
Below-trans (whole e) q = whole e
Below-trans {c = c} (same e) q = subst (λ t. Below t c) e q
Below-trans {a} (inside r e h) (whole f) = whole (append-empty a r (sym e ∙ f))
Below-trans (inside r e h) (same f) = inside r (f ∙ e) h
Below-trans {a} (inside r e h) (inside r' f g) =
    inside (r ++ r') (f ∙ ap (λ t. t ++ r') e ∙ append_assoc a r r')
      (ground (arith, at_slash-first r r'))
