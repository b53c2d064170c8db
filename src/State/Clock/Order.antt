-- ===== src/State/Clock/Order.antt =====
-- daemon/state/state.go: domination and merge against the order by counters.
use cerberus.Base.{
  ◌≡◌, ◌↔◌, ◌⊎◌, inl, inr, refl, sym, subst, ℕ, suc, ◌≤◌, Bool, true, false, not, ◌&&◌, List, [],
  ◌∷◌, arith, ltb, if◌then◌else◌, All, Bool-cases,
}
use cerberus.Base.Bytes.{bytes_eq, bytes_eq_iff}
use cerberus.State.Clock.{
  Clock, get, set, merge_max, dominated_by, same_entries, equal, happens_before,
}

-- The actors of a clock are distinct, as the keys of a map are.
abbrev pub IsMap : Clock → Type 0
IsMap [] = Unit {0}
IsMap ((k, v) ∷ c) = All (λ e. bytes_eq k e.0 ≡ false) c × IsMap c

get_absent : (k : List ℕ) (c : Clock) → All (λ e. bytes_eq k e.0 ≡ false) c → get c k ≡ 0
unfolding get
get_absent k [] a = refl
get_absent k ((j, w) ∷ c) a = elim (Bool-cases (bytes_eq j k)) [
  | inl e ↦ cc ((bytes_eq_iff k j).1 (sym ((bytes_eq_iff j k).0 e)), a.0)
  | inr e ↦ rw e (get_absent k c a.1)
]

pub get-set :
    (c : Clock) (k : List ℕ) (n : ℕ) (a : List ℕ)
    → get (set c k n) a ≡ (if bytes_eq k a then n else get c a)
unfolding get set
get-set [] k n a = refl
get-set ((j, w) ∷ c) k n a = elim (Bool-cases (bytes_eq j k)) [
  | inl e ↦ rw e (found ((bytes_eq_iff j k).0 e))
  | inr e ↦ rw (e, get-set c k n a) (other e)
]
  where
    found :
        j ≡ k
        → (if bytes_eq j a then n else get c a)
          ≡ (if bytes_eq k a then n else (if bytes_eq j a then w else get c a))
    found q = rw q (ground arith)

    other :
        bytes_eq j k ≡ false
        → (if bytes_eq j a then w else (if bytes_eq k a then n else get c a))
          ≡ (if bytes_eq k a then n else (if bytes_eq j a then w else get c a))
    other e = elim (Bool-cases (bytes_eq k a)) [
      | inl f ↦
          let apart : bytes_eq j a ≡ false =
            subst (λ t. bytes_eq j t ≡ false) ((bytes_eq_iff k a).0 f) e in
          rw (f, apart) refl
      | inr f ↦ rw f refl
    ]

-- On maps, a clock is dominated by another exactly when no counter of it is ahead.
pub dominated_by_iff :
    (c d : Clock) → IsMap c → (dominated_by c d ≡ true) ↔ ((a : List ℕ) → get c a ≤ get d a)
unfolding dominated_by get
dominated_by_iff [] d m = (λ h a. omega arith, λ h. refl)
dominated_by_iff ((k, v) ∷ c) d m =
    (to (dominated_by_iff c d m.1).0, from (dominated_by_iff c d m.1).1)
  where
    to :
        (dominated_by c d ≡ true → (a : List ℕ) → get c a ≤ get d a)
        → not (ltb (get d k) v) && dominated_by c d ≡ true
        → (a : List ℕ) → (if bytes_eq k a then v else get c a) ≤ get d a
    to ih h a = elim (Bool-cases (bytes_eq k a)) [
      | inl e ↦ rw (e, sym ((bytes_eq_iff k a).0 e)) (ground arith)
      | inr e ↦ rw e (ih (ground arith) a)
    ]

    below :
        ((a : List ℕ) → (if bytes_eq k a then v else get c a) ≤ get d a)
        → (a : List ℕ) → get c a ≤ get d a
    below h a = elim (Bool-cases (bytes_eq k a)) [
      | inl e ↦
          let absent : get c a ≡ 0 =
            subst (λ t. get c t ≡ 0) ((bytes_eq_iff k a).0 e) (get_absent k c m.0) in
          omega (arith, absent)
      | inr e ↦ rw e at (h a)
    ]

    from :
        (((a : List ℕ) → get c a ≤ get d a) → dominated_by c d ≡ true)
        → ((a : List ℕ) → (if bytes_eq k a then v else get c a) ≤ get d a)
        → not (ltb (get d k) v) && dominated_by c d ≡ true
    from ih h =
        let head : v ≤ get d k = rw ((bytes_eq_iff k k).1 refl) at (h k) in
        ground (arith, ih (below h))

-- One step of the merge.
get-step :
    (t : Bool) (c : Clock) (k : List ℕ) (v : ℕ) (a : List ℕ)
    → get (if t then set c k v else c) a ≡ (if t && bytes_eq k a then v else get c a)
get-step true c k v a = get-set c k v a
get-step false c k v a = refl

-- On maps, the merge of two clocks has the greater of their two counters for every actor.
pub get-merge_max :
    (c d : Clock)
    → IsMap d
    → (a : List ℕ) → get (merge_max c d) a ≡ (if ltb (get c a) (get d a) then get d a else get c a)
unfolding merge_max get
get-merge_max c [] m a = refl_max (get c a)
  where
    refl_max : (n : ℕ) → n ≡ (if ltb n 0 then 0 else n)
    refl_max n = ground arith
get-merge_max c ((k, v) ∷ d) m a =
    rw
      (
        get-merge_max (if ltb (get c k) v then set c k v else c) d m.1 a,
        get-step (ltb (get c k) v) c k v a,
      )
      (elim (Bool-cases (bytes_eq k a)) [
        | inl e ↦
            let same : k ≡ a = (bytes_eq_iff k a).0 e in
            let absent : get d a ≡ 0 = subst (λ t. get d t ≡ 0) same (get_absent k d m.0) in
            rw (e, absent, same) (ground arith)
        | inr e ↦ rw e (ground arith)
      ])

Apart-set :
    (j k : List ℕ) (v : ℕ) (c : Clock)
    → bytes_eq j k ≡ false
    → All (λ e. bytes_eq j e.0 ≡ false) c
    → All (λ e. bytes_eq j e.0 ≡ false) (set c k v)
unfolding set
Apart-set j k v [] n a = (n, tt)
Apart-set j k v ((i, w) ∷ c) n a = elim (Bool-cases (bytes_eq i k)) [
  | inl e ↦ rw e a
  | inr e ↦ rw e (a.0, Apart-set j k v c n a.1)
]

pub IsMap-set : (c : Clock) (k : List ℕ) (v : ℕ) → IsMap c → IsMap (set c k v)
unfolding set
IsMap-set [] k v m = (tt, tt)
IsMap-set ((i, w) ∷ c) k v m = elim (Bool-cases (bytes_eq i k)) [
  | inl e ↦ rw e m
  | inr e ↦ rw e (Apart-set i k v c e m.0, IsMap-set c k v m.1)
]

pub IsMap-merge_max : (c d : Clock) → IsMap c → IsMap (merge_max c d)
unfolding merge_max
IsMap-merge_max c [] m = m
IsMap-merge_max c ((k, v) ∷ d) m =
    IsMap-merge_max (if ltb (get c k) v then set c k v else c) d (step (ltb (get c k) v))
  where
    step : (t : Bool) → IsMap (if t then set c k v else c)
    step true = IsMap-set c k v m
    step false = m

-- The merge is the join of the causal order: it stays a map, and a clock dominates it exactly when
-- it dominates both.
dominated_by-merge_max :
    (c d e : Clock)
    → IsMap c
    → IsMap d
    → IsMap (merge_max c d)
      × ((dominated_by (merge_max c d) e ≡ true)
          ↔ ((dominated_by c e ≡ true) × (dominated_by d e ≡ true)))
dominated_by-merge_max c d e mc md = (m, (to, from))
  where
    m : IsMap (merge_max c d)
    m = IsMap-merge_max c d mc

    to :
        dominated_by (merge_max c d) e ≡ true
        → (dominated_by c e ≡ true) × (dominated_by d e ≡ true)
    to h =
        let below = (dominated_by_iff (merge_max c d) e m).0 h in
        (
          (dominated_by_iff c e mc).1 (λ a. ground (arith, below a, get-merge_max c d md a)),
          (dominated_by_iff d e md).1 (λ a. ground (arith, below a, get-merge_max c d md a)),
        )

    from :
        (dominated_by c e ≡ true) × (dominated_by d e ≡ true)
        → dominated_by (merge_max c d) e ≡ true
    from (h, k) = (dominated_by_iff (merge_max c d) e m).1 (λ a.
        rw (get-merge_max c d md a)
          (ground (arith, (dominated_by_iff c e mc).0 h a, (dominated_by_iff d e md).0 k a)))

skip_entry :
    (k : List ℕ) (v : ℕ) (c xs : Clock)
    → All (λ e. bytes_eq k e.0 ≡ false) xs
    → All (λ e. get c e.0 ≡ e.1) xs
    → All (λ e. get ((k, v) ∷ c) e.0 ≡ e.1) xs
unfolding get
skip_entry k v c [] n a = tt
skip_entry k v c (x ∷ xs) n a = (rw n.0 a.0, skip_entry k v c xs n.1 a.1)

pub reads_back : (c : Clock) → IsMap c → All (λ e. get c e.0 ≡ e.1) c
reads_back [] m = tt
reads_back ((k, v) ∷ c) m = (first, skip_entry k v c c m.0 (reads_back c m.1))
  where
    first : get ((k, v) ∷ c) k ≡ v
    first = unfold get in rw ((bytes_eq_iff k k).1 refl) refl

same_entries-All : (c d : Clock) → All (λ e. get d e.0 ≡ e.1) c → same_entries c d ≡ true
unfolding same_entries
same_entries-All [] d a = refl
same_entries-All ((k, v) ∷ c) d a = ground (arith, a.0, same_entries-All c d a.1)

-- No clock happens before itself.
pub happens_before_irreflexive : (c : Clock) → IsMap c → happens_before c c ≡ false
unfolding happens_before equal
happens_before_irreflexive c m = ground (arith, same_entries-All c c (reads_back c m))

-- A counter of 0 hides a difference: a clock whose one counter is 0 is dominated by one that counts
-- another actor's writes and does not dominate it, and yet it does not happen before it, as the
-- two are equal for the source.
equal_hides_order :
    (a b : List ℕ) (n : ℕ)
    → bytes_eq a b ≡ false
    → (dominated_by ((a, 0) ∷ []) ((b, suc n) ∷ []) ≡ true)
      × (dominated_by ((b, suc n) ∷ []) ((a, 0) ∷ []) ≡ false)
      × (equal ((a, 0) ∷ []) ((b, suc n) ∷ []) ≡ true)
      × (happens_before ((a, 0) ∷ []) ((b, suc n) ∷ []) ≡ false)
unfolding equal happens_before dominated_by same_entries get
equal_hides_order a b n apart =
    (rw other refl, rw apart (ground arith), rw other refl, rw other refl)
  where
    flip : (bytes_eq b a ≡ true) ⊎ (bytes_eq b a ≡ false) → bytes_eq b a ≡ false
    flip (inl e) = cc ((bytes_eq_iff a b).1 (sym ((bytes_eq_iff b a).0 e)), apart)
    flip (inr e) = e

    other : bytes_eq b a ≡ false
    other = flip (Bool-cases (bytes_eq b a))
