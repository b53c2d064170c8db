-- ===== src/State/Clock/Ahead.antt =====
-- daemon/state/state.go: clocks that are ahead of another one.
use cerberus.Base.{
  ◌≡◌, ◌≢◌, ◌⊎◌, inl, inr, refl, ap, sym, ◌∙◌, subst, ℕ, suc, ◌+◌, ◌%◌, ◌≤◌, ◌<◌, true, false, List,
  [], ◌∷◌, arith, length, if◌then◌else◌, All, Bool-cases, u64_mod,
}
use cerberus.Base.Bytes.{bytes_eq, bytes_eq_iff}
use cerberus.State.Clock.{Clock, get, tick, dominated_by, same_entries, equal, happens_before}
use cerberus.State.Clock.Order.{IsMap, dominated_by_iff, get-set, reads_back}

remove : Clock → List ℕ → Clock
remove [] k = []
remove ((j, w) ∷ c) k = let rest = remove c k in if bytes_eq j k then c else (j, w) ∷ rest

length-remove : (c : Clock) (k : List ℕ) → get c k ≢ 0 → length c ≡ suc (length (remove c k))
unfolding remove get
length-remove [] k n = absurd (n refl)
length-remove ((j, w) ∷ c) k n = elim (Bool-cases (bytes_eq j k)) [
  | inl e ↦ rw e refl
  | inr e ↦ rw e (ap suc (length-remove c k (rw e at n)))
]

get-remove : (c : Clock) (k a : List ℕ) → bytes_eq k a ≡ false → get (remove c k) a ≡ get c a
unfolding remove get
get-remove [] k a n = refl
get-remove ((j, w) ∷ c) k a n = elim (Bool-cases (bytes_eq j k)) [
  | inl e ↦
      let other : bytes_eq j a ≡ false =
        subst (λ t. bytes_eq t a ≡ false) (sym ((bytes_eq_iff j k).0 e)) n in
      rw (e, other) refl
  | inr e ↦ rw (e, get-remove c k a n) refl
]

-- Every counter is at least 1.
abbrev pub Counts : Clock → Type 0
Counts c = All (λ e. e.1 ≢ 0) c

agree-remove :
    (k : List ℕ) (c d : Clock)
    → All (λ e. bytes_eq k e.0 ≡ false) c
    → All (λ e. get d e.0 ≡ e.1) c
    → All (λ e. get (remove d k) e.0 ≡ e.1) c
agree-remove k [] d n a = tt
agree-remove k (e ∷ c) d n a = (get-remove d k e.0 n.0 ∙ a.0, agree-remove k c d n.1 a.1)

-- A clock that agrees with another one, and lacks an actor that the other counts, is shorter.
shorter :
    (c d : Clock) (r : List ℕ)
    → IsMap c
    → Counts c
    → All (λ e. get d e.0 ≡ e.1) c
    → All (λ e. bytes_eq e.0 r ≡ false) c
    → get d r ≢ 0
    → length c < length d
shorter [] d r m p a n h = omega (arith, length-remove d r h)
shorter ((k, v) ∷ c) d r m p a n h =
    let present : get d k ≢ 0 = λ z. p.0 (sym a.0 ∙ z) in
    let counted : get (remove d k) r ≢ 0 = λ z. h (sym (get-remove d k r n.0) ∙ z) in
    omega (
      arith,
      length-remove d k present,
      shorter c (remove d k) r m.1 p.1 (agree-remove k c d m.0 a.1) n.1 counted,
    )

same_entries-All : (c d : Clock) → same_entries c d ≡ true → All (λ e. get d e.0 ≡ e.1) c
unfolding same_entries
same_entries-All [] d h = tt
same_entries-All ((k, v) ∷ c) d h = (ground arith, same_entries-All c d (ground arith))

same_entries-dominated_by : (c d : Clock) → same_entries c d ≡ true → dominated_by c d ≡ true
unfolding same_entries dominated_by
same_entries-dominated_by [] d h = refl
same_entries-dominated_by ((k, v) ∷ c) d h = ground (arith, same_entries-dominated_by c d)

lacks :
    (x d : Clock) (r : List ℕ) (xs : Clock)
    → get x r < get d r
    → All (λ e. get x e.0 ≡ e.1) xs
    → All (λ e. get d e.0 ≡ e.1) xs
    → All (λ e. bytes_eq e.0 r ≡ false) xs
lacks x d r [] l a b = tt
lacks x d r (e ∷ xs) l a b = (apart (Bool-cases (bytes_eq e.0 r)), lacks x d r xs l a.1 b.1)
  where
    apart : (bytes_eq e.0 r ≡ true) ⊎ (bytes_eq e.0 r ≡ false) → bytes_eq e.0 r ≡ false
    apart (inl q) =
        let same : get x r ≡ get d r =
          subst (λ t. get x t ≡ get d t) ((bytes_eq_iff e.0 r).0 q) (a.0 ∙ sym b.0) in
        absurd (omega (arith, same, l))
    apart (inr q) = q

module _ (x d : Clock) (r : List ℕ) (mx : IsMap x) (md : IsMap d) (ahead : get x r < get d r) where
  not_above : dominated_by d x ≡ false
  not_above = elim (Bool-cases (dominated_by d x)) [
    | inl h ↦ absurd (omega (arith, (dominated_by_iff d x md).0 h r, ahead))
    | inr h ↦ h
  ]

  pub not_after : happens_before d x ≡ false
  not_after = unfold happens_before in rw not_above refl

  pub not_same : equal d x ≡ false
  unfolding equal
  not_same = ground (arith, same_entries-dominated_by d x, not_above)

  differs : Counts x → equal x d ≡ false
  unfolding equal
  differs p = elim (Bool-cases (same_entries x d)) [
    | inl h ↦
        let agree : All (λ e. get d e.0 ≡ e.1) x = same_entries-All x d h in
        let counted : get d r ≢ 0 = λ z. omega (arith, z, ahead) in
        let short : length x < length d =
          shorter x d r mx p agree (lacks x d r x ahead (reads_back x mx) agree) counted in
        ground (arith, short)
    | inr h ↦ ground (arith, h)
  ]

  pub superseded : Counts x → ((a : List ℕ) → get x a ≤ get d a) → happens_before x d ≡ true
  superseded p below =
      unfold happens_before in rw ((dominated_by_iff x d mx).1 below, differs p) refl

get-tick :
    (c : Clock) (r a : List ℕ)
    → get (tick c r) a ≡ (if bytes_eq r a then (get c r + 1) % u64_mod else get c a)
unfolding tick
get-tick c r a = get-set c r ((get c r + 1) % u64_mod) a

next_counter : (n : ℕ) → n + 1 < u64_mod → (n + 1) % u64_mod ≡ n + 1
next_counter n h = omega arith

module _ (c : Clock) (r : List ℕ) (room : get c r + 1 < u64_mod) where
  pub tick_ahead : get c r < get (tick c r) r
  tick_ahead =
      rw (get-tick c r r, (bytes_eq_iff r r).1 refl, next_counter (get c r) room) (omega arith)

  pub tick_above : (a : List ℕ) → get c a ≤ get (tick c r) a
  tick_above a = rw (get-tick c r a) (elim (Bool-cases (bytes_eq r a)) [
    | inl e ↦
        let same : get c a ≡ get c r = ap (λ t. get c t) (sym ((bytes_eq_iff r a).0 e)) in
        rw (e, next_counter (get c r) room, same) (omega arith)
    | inr e ↦ rw e (omega arith)
  ])
