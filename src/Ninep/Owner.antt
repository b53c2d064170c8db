-- ===== src/Ninep/Owner.antt =====
-- daemon/ninep/ninep.go: which device a path belongs to.
use mathlib.Core.List.{Memᴰ, append_assoc}
use mathlib.Core.List.Memᴰ
use cerberus.Base.{
  some_not_none, ℕ, ◌≤◌, ◌<◌, ◌≡◌, ◌⊎◌, ◌↔◌, refl, sym, ap, ◌∙◌, subst, inl, inr, true, List, [],
  ◌∷◌, Option, none, some, ltb, length, take, take-length, take_all, arith, Bool-cases,
}
use cerberus.Base.Bytes.{bytes_eq, bytes_eq_iff, has_prefix, has_prefix_rest}
use cerberus.Ninep.Path.{Bytes, slash, inside}
use cerberus.Ninep.Server.{Server, Device, device_for, owns, better, best_length, longest}

-- What is known of the device that the loop found, if any.
unfoldable pub Owned : List Device → Bytes → Option Device → Type 0
Owned ds path none = (e : Device) → Memᴰ e ds → owns e.dir path ≡ true → length e.dir ≡ 0
Owned ds path (some d) =
    Memᴰ d ds
    × (owns d.dir path ≡ true)
    × (0 < length d.dir)
    × ((e : Device) → Memᴰ e ds → owns e.dir path ≡ true → length e.dir ≤ length d.dir)

abbrev Owning : Bytes → Device → Type 0
Owning path d = (owns d.dir path ≡ true) × (0 < length d.dir)

-- The best of a list and of what was found in front of it.
record Best (ds : List Device) (path : Bytes) (best r : Option Device) : Type 0 where
  pub grows : best_length best ≤ best_length r
  pub bound : (e : Device) → Memᴰ e ds → owns e.dir path ≡ true → length e.dir ≤ best_length r
  pub source : (r ≡ best) ⊎ ((d : Device) × (r ≡ some d) × Memᴰ d ds × Owning path d)

better-Best :
    (path : Bytes) (d : Device) (best : Option Device)
    → (best_length best ≤ best_length (better path d best))
      × (owns d.dir path ≡ true → length d.dir ≤ best_length (better path d best))
      × ((better path d best ≡ best) ⊎ ((better path d best ≡ some d) × Owning path d))
better-Best path d best = elim (Bool-cases (owns d.dir path)) [
  | inl q ↦ elim (Bool-cases (ltb (best_length best) (length d.dir))) [
    | inl p ↦ rw (q, p) (ground arith, λ _. omega arith, inr (refl, (refl, ground arith)))
    | inr p ↦ rw (q, p) (omega arith, λ _. ground arith, inl refl)
  ]
  | inr q ↦ rw q (omega arith, λ e. cc, inl refl)
]

bound_cons :
    (path : Bytes) (d : Device) (ds : List Device) (a n : ℕ)
    → (owns d.dir path ≡ true → length d.dir ≤ a)
    → a ≤ n
    → ((e : Device) → Memᴰ e ds → owns e.dir path ≡ true → length e.dir ≤ n)
    → (e : Device) → Memᴰ e (d ∷ ds)
    → owns e.dir path ≡ true
    → length e.dir ≤ n
bound_cons path d ds a n first le rest e (Memᴰ.head q) o =
    let le' : length e.dir ≤ a =
      subst (λ x. owns x.dir path ≡ true → length x.dir ≤ a) (sym q) first o in
    omega (arith, le', le)
bound_cons path d ds a n first le rest e (Memᴰ.tail m) o = rest e m o

source_cons :
    (path : Bytes) (d : Device) (ds : List Device) (best next r : Option Device)
    → (next ≡ best) ⊎ ((next ≡ some d) × Owning path d)
    → (r ≡ next) ⊎ ((e : Device) × (r ≡ some e) × Memᴰ e ds × Owning path e)
    → (r ≡ best) ⊎ ((e : Device) × (r ≡ some e) × Memᴰ e (d ∷ ds) × Owning path e)
source_cons path d ds best next r from (inr (e, q, m, o)) = inr (e, q, Memᴰ.tail m, o)
source_cons path d ds best next r (inl p) (inl q) = inl (q ∙ p)
source_cons path d ds best next r (inr (p, o)) (inl q) = inr (d, q ∙ p, Memᴰ.head refl, o)

longest-Best :
    (path : Bytes) (ds : List Device) (best : Option Device)
    → Best ds path best (longest path ds best)
unfolding longest
longest-Best path [] best = record {
  grows = omega arith;
  bound = λ e m _. absurd (Memᴰ.not-nil m);
  source = inl refl;
}
longest-Best path (d ∷ ds) best =
    let step = better-Best path d best in
    let ih = longest-Best path ds (better path d best) in
    record {
      grows = omega (arith, step.0, ih.grows);
      bound = bound_cons path d ds _ _ step.1 ih.grows ih.bound;
      source = source_cons path d ds best _ _ step.2 ih.source;
    }

longest-Owned : (path : Bytes) (ds : List Device) → Owned ds path (longest path ds none)
unfolding Owned
longest-Owned path ds = go (longest path ds none) (longest-Best path ds none)
  where
    go : (r : Option Device) → Best ds path none r → Owned ds path r
    go none b = λ e m o. omega (arith, b.bound e m o)
    go (some d) b = elim b.source [
      | inl e ↦ absurd (some_not_none e)
      | inr (e, q, m, o) ↦ owner e (some_injective q) m o
    ]
      where
        some_injective : {x y : Device} → some x ≡ some y → x ≡ y
        some_injective h = cc

        owner : (e : Device) → d ≡ e → Memᴰ e ds → Owning path e → Owned ds path (some d)
        owner e q m o =
            let o' = subst (Owning path) (sym q) o in (Memᴰ.cast q m, o'.0, o'.1, b.bound)

owns-take : (path d : Bytes) → owns d path ≡ true → take (length d) path ≡ d
owns-take path d h = elim (Bool-cases (bytes_eq path d)) [
  | inl q ↦ ap (take (length d)) ((bytes_eq_iff path d).0 q) ∙ take_all (length d) d (omega arith)
  | inr q ↦
      let inner : has_prefix path (inside d) ≡ true = ground (arith, h, q) in
      let (rest, e) = has_prefix_rest path (inside d) inner in
      ap (take (length d)) (e ∙ append_assoc d (slash ∷ []) rest) ∙ take-length d (slash ∷ rest)
]

-- Two directories of one length that own a path are one.
owns_same :
    (path d e : Bytes) → owns d path ≡ true → owns e path ≡ true → length d ≡ length e → d ≡ e
owns_same path d e h g n = sym (owns-take path d h) ∙ ap (λ k. take k path) n ∙ owns-take path e g

same_owner :
    (path : Bytes) (ds ds' : List Device)
    → ((e : Device) → Memᴰ e ds ↔ Memᴰ e ds')
    → ((d e : Device) → Memᴰ d ds → Memᴰ e ds → d.dir ≡ e.dir → d ≡ e)
    → (r r' : Option Device) → Owned ds path r
    → Owned ds' path r'
    → r ≡ r'
unfolding Owned
same_owner path ds ds' same keys none none h h' = refl
same_owner path ds ds' same keys none (some d) h h' =
    absurd (omega (arith, h d ((same d).1 h'.0) h'.1, h'.2))
same_owner path ds ds' same keys (some d) none h h' =
    absurd (omega (arith, h' d ((same d).0 h.0) h.1, h.2))
same_owner path ds ds' same keys (some d) (some e) h h' =
    let m' = (same e).1 h'.0 in
    let n : length d.dir ≡ length e.dir =
      omega (arith, h.3 e m' h'.1, h'.3 d ((same d).0 h.0) h.1) in
    ap some (keys d e h.0 m' (owns_same path d.dir e.dir h.1 h'.1 n))

-- The device of a path does not depend on the order in which the loop meets the entries of the map.
pub device_for_order :
    {E : Type 0} (s : Server E) (path : Bytes) (ds : List Device)
    → ((e : Device) → Memᴰ e s.devices ↔ Memᴰ e ds)
    → ((d e : Device) → Memᴰ d s.devices → Memᴰ e s.devices → d.dir ≡ e.dir → d ≡ e)
    → device_for (record s { devices = ds }) path ≡ device_for s path
device_for_order s path ds same keys = sym (
    same_owner path s.devices ds same keys _ _ (longest-Owned path s.devices)
      (longest-Owned path ds))
