-- ===== src/Auth/Envelope/Order.antt =====
-- daemon/auth/signedcap.go: the order of the caveats in the canonical bytes.
use cerberus.Base.{Bool, true, false, ◌≡◌, refl, List, [], ◌∷◌, arith, inl, inr, Bool-cases}
use cerberus.Base.Bytes.{bytes_ltb}
use cerberus.Auth.Grant.{Bytes, Caveat, caveat_key}
use cerberus.Auth.Envelope.{insert_caveat, sort_caveats}

bytes_ltb-asym : (xs ys : Bytes) → bytes_ltb xs ys ≡ true → bytes_ltb ys xs ≡ false
unfolding bytes_ltb
bytes_ltb-asym xs [] h = cc
bytes_ltb-asym [] (y ∷ ys) h = refl
bytes_ltb-asym (x ∷ xs) (y ∷ ys) h = ground (arith, bytes_ltb-asym xs ys)

abbrev comes_before : Caveat → Caveat → Bool
comes_before c d = bytes_ltb (caveat_key c) (caveat_key d)

-- No caveat is before the one in front of it.
unfoldable pub Ordered : List Caveat → Type 0
Ordered [] = Unit
Ordered (c ∷ []) = Unit
Ordered (c ∷ d ∷ cs) = (comes_before d c ≡ false) × Ordered (d ∷ cs)

insert_caveat-Ordered_under :
    (c d : Caveat) (cs : List Caveat)
    → comes_before d c ≡ true
    → Ordered (d ∷ cs)
    → Ordered (d ∷ insert_caveat c cs)
unfolding insert_caveat Ordered
insert_caveat-Ordered_under c d [] h o = (bytes_ltb-asym (caveat_key d) (caveat_key c) h, tt)
insert_caveat-Ordered_under c d (e ∷ cs) h o = elim (Bool-cases (comes_before e c)) [
  | inl q ↦ rw q (o.0, insert_caveat-Ordered_under c e cs q o.1)
  | inr q ↦ rw q (bytes_ltb-asym (caveat_key d) (caveat_key c) h, (q, o.1))
]

insert_caveat-Ordered : (c : Caveat) (cs : List Caveat) → Ordered cs → Ordered (insert_caveat c cs)
unfolding insert_caveat Ordered
insert_caveat-Ordered c [] o = tt
insert_caveat-Ordered c (d ∷ cs) o = elim (Bool-cases (comes_before d c)) [
  | inl q ↦ rw q (insert_caveat-Ordered_under c d cs q o)
  | inr q ↦ rw q (q, o)
]

pub sort_caveats-Ordered : (cs : List Caveat) → Ordered (sort_caveats cs)
unfolding sort_caveats Ordered
sort_caveats-Ordered [] = tt
sort_caveats-Ordered (c ∷ cs) = insert_caveat-Ordered c (sort_caveats cs) (sort_caveats-Ordered cs)

insert_caveat-first :
    (c : Caveat) (cs : List Caveat) → Ordered (c ∷ cs) → insert_caveat c cs ≡ c ∷ cs
unfolding insert_caveat Ordered
insert_caveat-first c [] o = refl
insert_caveat-first c (d ∷ cs) o = rw o.0 refl

Ordered-tail : (c : Caveat) (cs : List Caveat) → Ordered (c ∷ cs) → Ordered cs
unfolding Ordered
Ordered-tail c [] o = tt
Ordered-tail c (d ∷ cs) o = o.1

pub sort_caveats-sorted : (cs : List Caveat) → Ordered cs → sort_caveats cs ≡ cs
unfolding sort_caveats
sort_caveats-sorted [] o = refl
sort_caveats-sorted (c ∷ cs) o =
    rw (sort_caveats-sorted cs (Ordered-tail c cs o)) (insert_caveat-first c cs o)
