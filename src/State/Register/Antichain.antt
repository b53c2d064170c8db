-- ===== src/State/Register/Antichain.antt =====
-- daemon/state/state.go: how the writes of a register stand to each other.
use cerberus.Base.{
  ◌≡◌, ◌⊎◌, ◌↔◌, inl, inr, refl, sym, subst, false, List, [], ◌∷◌, ◌++◌, arith, Bool-cases,
}
use mathlib.Core.List.{Memᴰ}
use mathlib.Core.List.Memᴰ
use cerberus.State.Clock.{happens_before}
use cerberus.State.Clock.Order.{IsMap, happens_before_irreflexive}
use cerberus.State.Register.{Dot, is_stale, kept, has_write, before, insert_dot, sort_dots, absorb}

-- The clocks are maps, and no write supersedes another.
pub record Frontier (dots : List Dot) : Type 0 where
  pub maps : (d : Dot) → Memᴰ d dots → IsMap d.clock
  pub antichain : (d e : Dot) → Memᴰ d dots → Memᴰ e dots → happens_before d.clock e.clock ≡ false

insert_dot-Mem :
    (d x : Dot) (dots : List Dot) → Memᴰ x (insert_dot d dots) ↔ ((x ≡ d) ⊎ Memᴰ x dots)
unfolding insert_dot
insert_dot-Mem d x [] = (Memᴰ.cases_cons, from)
  where
    from : (x ≡ d) ⊎ Memᴰ x [] → Memᴰ x (d ∷ [])
    from (inl q) = Memᴰ.head q
    from (inr n) = Memᴰ.tail n
insert_dot-Mem d x (e ∷ dots) = elim (Bool-cases (before e d)) [
  | inl b ↦ rw b (
    (λ m. under (insert_dot-Mem d x dots).0 (Memᴰ.cases_cons m)),
    over (insert_dot-Mem d x dots).1,
  )
  | inr b ↦ rw b (Memᴰ.cases_cons, put)
]
  where
    under :
        (Memᴰ x (insert_dot d dots) → (x ≡ d) ⊎ Memᴰ x dots)
        → (x ≡ e) ⊎ Memᴰ x (insert_dot d dots)
        → (x ≡ d) ⊎ Memᴰ x (e ∷ dots)
    under ih (inl q) = inr (Memᴰ.head q)
    under ih (inr n) = shift (ih n)
      where
        shift : (x ≡ d) ⊎ Memᴰ x dots → (x ≡ d) ⊎ Memᴰ x (e ∷ dots)
        shift (inl q) = inl q
        shift (inr k) = inr (Memᴰ.tail k)

    over :
        ((x ≡ d) ⊎ Memᴰ x dots → Memᴰ x (insert_dot d dots))
        → (x ≡ d) ⊎ Memᴰ x (e ∷ dots)
        → Memᴰ x (e ∷ insert_dot d dots)
    over ih (inl q) = Memᴰ.tail (ih (inl q))
    over ih (inr (Memᴰ.head q)) = Memᴰ.head q
    over ih (inr (Memᴰ.tail k)) = Memᴰ.tail (ih (inr k))

    put : (x ≡ d) ⊎ Memᴰ x (e ∷ dots) → Memᴰ x (d ∷ e ∷ dots)
    put (inl q) = Memᴰ.head q
    put (inr n) = Memᴰ.tail n

under_cons :
    {x d : Dot} {xs ys : List Dot} → (Memᴰ x xs → Memᴰ x ys) → (x ≡ d) ⊎ Memᴰ x xs → Memᴰ x (d ∷ ys)
under_cons f (inl q) = Memᴰ.head q
under_cons f (inr m) = Memᴰ.tail (f m)

uncons :
    {x d : Dot} {xs ys : List Dot} → (Memᴰ x xs → Memᴰ x ys) → Memᴰ x (d ∷ xs) → (x ≡ d) ⊎ Memᴰ x ys
uncons f (Memᴰ.head q) = inl q
uncons f (Memᴰ.tail m) = inr (f m)

pub sort_dots-Mem : (x : Dot) (dots : List Dot) → Memᴰ x (sort_dots dots) ↔ Memᴰ x dots
unfolding sort_dots
sort_dots-Mem x [] = ((λ m. m), (λ m. m))
sort_dots-Mem x (d ∷ dots) = (
  (λ m. under_cons (sort_dots-Mem x dots).0 ((insert_dot-Mem d x (sort_dots dots)).0 m)),
  (λ m. (insert_dot-Mem d x (sort_dots dots)).1 (uncons (sort_dots-Mem x dots).1 m)),
)

pub kept-Mem :
    (d x : Dot) (dots : List Dot)
    → Memᴰ x (kept d dots)
    → Memᴰ x dots × (happens_before x.clock d.clock ≡ false)
unfolding kept
kept-Mem d x [] m = elim m [ ]
kept-Mem d x (e ∷ dots) m = elim (Bool-cases (happens_before e.clock d.clock)) [
  | inl b ↦ later (kept-Mem d x dots (rw b at m))
  | inr b ↦ here b (kept-Mem d x dots) (Memᴰ.cases_cons (rw b at m))
]
  where
    later :
        Memᴰ x dots × (happens_before x.clock d.clock ≡ false)
        → Memᴰ x (e ∷ dots) × (happens_before x.clock d.clock ≡ false)
    later (n, h) = (Memᴰ.tail n, h)

    here :
        happens_before e.clock d.clock ≡ false
        → (Memᴰ x (kept d dots) → Memᴰ x dots × (happens_before x.clock d.clock ≡ false))
        → (x ≡ e) ⊎ Memᴰ x (kept d dots)
        → Memᴰ x (e ∷ dots) × (happens_before x.clock d.clock ≡ false)
    here b ih (inl q) = (Memᴰ.head q, subst (λ t. happens_before t.clock d.clock ≡ false) (sym q) b)
    here b ih (inr n) = later (ih n)

pub Mem-kept :
    (d x : Dot) (dots : List Dot)
    → Memᴰ x dots
    → happens_before x.clock d.clock ≡ false
    → Memᴰ x (kept d dots)
unfolding kept
Mem-kept d x [] m h = m
Mem-kept d x (e ∷ dots) (Memᴰ.head q) h =
    rw (subst (λ t. happens_before t.clock d.clock ≡ false) q h) (Memᴰ.head q)
Mem-kept d x (e ∷ dots) (Memᴰ.tail m) h = elim (Bool-cases (happens_before e.clock d.clock)) [
  | inl b ↦ rw b (Mem-kept d x dots m h)
  | inr b ↦ rw b (Memᴰ.tail (Mem-kept d x dots m h))
]

not_stale :
    (d x : Dot) (dots : List Dot)
    → is_stale d dots ≡ false
    → Memᴰ x dots
    → happens_before d.clock x.clock ≡ false
unfolding is_stale
not_stale d x [] h m = elim m [ ]
not_stale d x (e ∷ dots) h (Memᴰ.head q) =
    subst (λ t. happens_before d.clock t.clock ≡ false) (sym q) (ground arith)
not_stale d x (e ∷ dots) h (Memᴰ.tail m) = not_stale d x dots (ground arith) m

-- Every write that is left stood there before or is the new one, which is kept apart.
pub absorb-Mem :
    (d x : Dot) (dots : List Dot)
    → is_stale d dots ≡ false
    → Memᴰ x (absorb d dots)
    → (x ≡ d) ⊎ (Memᴰ x dots × (happens_before x.clock d.clock ≡ false))
unfolding absorb
absorb-Mem d x dots fresh m = elim (Bool-cases (has_write d (kept d dots))) [
  | inl b ↦ inr (kept-Mem d x dots ((sort_dots-Mem x (kept d dots)).0 (rw (fresh, b) at m)))
  | inr b ↦ from (
      Memᴰ.append_cases (kept d dots)
        ((sort_dots-Mem x (kept d dots ++ (d ∷ []))).0 (rw (fresh, b) at m)))
]
  where
    from :
        Memᴰ x (kept d dots) ⊎ Memᴰ x (d ∷ [])
        → (x ≡ d) ⊎ (Memᴰ x dots × (happens_before x.clock d.clock ≡ false))
    from (inl n) = inr (kept-Mem d x dots n)
    from (inr n) = inl (Memᴰ.eq_of_singleton n)

-- Absorbing a write whose clock is a map into a frontier leaves a frontier: no write that is kept
-- supersedes another.
pub absorb-Frontier :
    (d : Dot) (dots : List Dot) → IsMap d.clock → Frontier dots → Frontier (absorb d dots)
absorb-Frontier d dots m f = elim (Bool-cases (is_stale d dots)) [
  | inl s ↦
      let unchanged : absorb d dots ≡ dots = unfold absorb in rw s refl in
      subst (λ xs. Frontier xs) (sym unchanged) f
  | inr s ↦ record {
    maps = λ x n. map_of x (absorb-Mem d x dots s n);
    antichain = λ x y n k. apart s x y (absorb-Mem d x dots s n) (absorb-Mem d y dots s k);
  }
]
  where
    map_of :
        (x : Dot)
        → (x ≡ d) ⊎ (Memᴰ x dots × (happens_before x.clock d.clock ≡ false))
        → IsMap x.clock
    map_of x (inl q) = subst (λ t. IsMap t.clock) (sym q) m
    map_of x (inr (n, h)) = f.maps x n

    apart :
        is_stale d dots ≡ false
        → (x y : Dot) → (x ≡ d) ⊎ (Memᴰ x dots × (happens_before x.clock d.clock ≡ false))
        → (y ≡ d) ⊎ (Memᴰ y dots × (happens_before y.clock d.clock ≡ false))
        → happens_before x.clock y.clock ≡ false
    apart s x y (inl p) (inl q) = rw (p, q) (happens_before_irreflexive d.clock m)
    apart s x y (inl p) (inr (k, h)) =
        subst (λ t. happens_before t.clock y.clock ≡ false) (sym p) (not_stale d y dots s k)
    apart s x y (inr (n, h)) (inl q) = subst (λ t. happens_before x.clock t.clock ≡ false) (sym q) h
    apart s x y (inr (n, h)) (inr (k, g)) = f.antichain x y n k
