-- ===== src/State/Register/Complete.antt =====
-- daemon/state/state.go: the writes of a register before and after it absorbs one.
use cerberus.Base.{
  ◌≡◌, ◌⊎◌, inl, inr, refl, sym, subst, true, false, List, [], ◌∷◌, ◌++◌, arith, Bool-cases,
}
use mathlib.Core.List.{Memᴰ}
use mathlib.Core.List.Memᴰ
use cerberus.State.Clock.{happens_before}
use cerberus.State.Register.{Dot, same_write, is_stale, kept, has_write, sort_dots, absorb}
use cerberus.State.Register.Antichain.{sort_dots-Mem, Mem-kept, absorb-Mem}

-- `x` is `y`, or a chain of writes leads from `x` to `y`, in which each is superseded by the next or
-- the same as it.
pub data Superseded : Dot → Dot → Type 0 where
  itself : {x y : Dot} → x ≡ y → Superseded x y
  later :
      {x z : Dot} (y : Dot)
      → happens_before x.clock y.clock ≡ true
      → Superseded y z
      → Superseded x z
  copy :
      {x z : Dot} (y : Dot)
      → (same_write x y ≡ true) ⊎ (same_write y x ≡ true)
      → Superseded y z
      → Superseded x z

abbrev pub Covered : Dot → List Dot → Type 0
Covered x dots = (y : Dot) × Memᴰ y dots × Superseded x y

widen : {x e : Dot} {dots : List Dot} → Covered x dots → Covered x (e ∷ dots)
widen (y, m, s) = (y, Memᴰ.tail m, s)

is_stale-Covered : (d : Dot) (dots : List Dot) → is_stale d dots ≡ true → Covered d dots
unfolding is_stale
is_stale-Covered d [] h = cc
is_stale-Covered d (e ∷ dots) h = elim (Bool-cases (happens_before d.clock e.clock)) [
  | inl b ↦ (e, Memᴰ.head refl, later e b (itself refl))
  | inr b ↦ elim (Bool-cases (same_write d e)) [
    | inl c ↦ (e, Memᴰ.head refl, copy e (inl c) (itself refl))
    | inr c ↦ widen (is_stale-Covered d dots (rw (b, c) at h))
  ]
]

has_write-Covered : (d : Dot) (dots : List Dot) → has_write d dots ≡ true → Covered d dots
unfolding has_write
has_write-Covered d [] h = cc
has_write-Covered d (e ∷ dots) h = elim (Bool-cases (same_write e d)) [
  | inl c ↦ (e, Memᴰ.head refl, copy e (inr c) (itself refl))
  | inr c ↦ widen (has_write-Covered d dots (ground (arith, h, c)))
]

-- A write that is not stale is kept, or a copy of it is.
new-Covered : (d : Dot) (dots : List Dot) → is_stale d dots ≡ false → Covered d (absorb d dots)
unfolding absorb
new-Covered d dots s = elim (Bool-cases (has_write d (kept d dots))) [
  | inl b ↦ rw (s, b) (sorted (has_write-Covered d (kept d dots) b))
  | inr b ↦
      rw (s, b)
        (
          d,
          (sort_dots-Mem d (kept d dots ++ (d ∷ []))).1
              (Memᴰ.append_right (kept d dots) (Memᴰ.head refl)),
          itself refl,
        )
]
  where
    sorted : Covered d (kept d dots) → Covered d (sort_dots (kept d dots))
    sorted (y, m, t) = (y, (sort_dots-Mem y (kept d dots)).1 m, t)

old_kept :
    (d x : Dot) (dots : List Dot)
    → is_stale d dots ≡ false
    → Memᴰ x dots
    → happens_before x.clock d.clock ≡ false
    → Memᴰ x (absorb d dots)
unfolding absorb
old_kept d x dots s m h = elim (Bool-cases (has_write d (kept d dots))) [
  | inl b ↦ rw (s, b) ((sort_dots-Mem x (kept d dots)).1 (Mem-kept d x dots m h))
  | inr b ↦
      rw (s, b)
        ((sort_dots-Mem x (kept d dots ++ (d ∷ []))).1
          (Memᴰ.append_left (d ∷ []) (Mem-kept d x dots m h)))
]

loses_none : (d x : Dot) (dots : List Dot) → Memᴰ x (d ∷ dots) → Covered x (absorb d dots)
loses_none d x dots m = elim (Bool-cases (is_stale d dots)) [
  | inl s ↦
      let unchanged : absorb d dots ≡ dots = unfold absorb in rw s refl in rw unchanged (stale s m)
  | inr s ↦ kept_or_later s (new-Covered d dots s) m
]
  where
    stale : is_stale d dots ≡ true → Memᴰ x (d ∷ dots) → Covered x dots
    stale s (Memᴰ.head q) = subst (λ t. Covered t dots) (sym q) (is_stale-Covered d dots s)
    stale s (Memᴰ.tail n) = (x, n, itself refl)

    kept_or_later :
        is_stale d dots ≡ false
        → Covered d (absorb d dots)
        → Memᴰ x (d ∷ dots)
        → Covered x (absorb d dots)
    kept_or_later s c (Memᴰ.head q) = subst (λ t. Covered t (absorb d dots)) (sym q) c
    kept_or_later s (y, k, t) (Memᴰ.tail n) = elim (Bool-cases (happens_before x.clock d.clock)) [
      | inl h ↦ (y, k, later d h t)
      | inr h ↦ (x, old_kept d x dots s n h, itself refl)
    ]

-- Absorbing a write loses none: each earlier write and the new one is kept, or a chain of writes that
-- supersede it leads to one that is. And it invents none: what is kept was there or is the new one.
absorb_complete :
    (d : Dot) (dots : List Dot)
    → ((x : Dot) → Memᴰ x (d ∷ dots) → Covered x (absorb d dots))
      × ((y : Dot) → Memᴰ y (absorb d dots) → Memᴰ y (d ∷ dots))
absorb_complete d dots = ((λ x m. loses_none d x dots m), invents)
  where
    invents : (y : Dot) → Memᴰ y (absorb d dots) → Memᴰ y (d ∷ dots)
    invents y m = elim (Bool-cases (is_stale d dots)) [
      | inl s ↦
          let unchanged : absorb d dots ≡ dots = unfold absorb in rw s refl in
          Memᴰ.tail (subst (λ t. Memᴰ y t) unchanged m)
      | inr s ↦ pick (absorb-Mem d y dots s m)
    ]
      where
        pick :
            (y ≡ d) ⊎ (Memᴰ y dots × (happens_before y.clock d.clock ≡ false)) → Memᴰ y (d ∷ dots)
        pick (inl q) = Memᴰ.head q
        pick (inr (n, h)) = Memᴰ.tail n
