-- ===== src/Store/Bucket.antt =====
-- The entries of a bucket, in key order, and the laws of lookups and sums over them.
use cerberus.Base.{
  ℕ, ◌+◌, ◌≡◌, refl, ◌↔◌, inl, inr, Option-cases, Bool, true, List, [], ◌∷◌, Option, none, some,
  arith, if◌then◌else◌,
}

-- Equality and the byte order of keys.
pub record KeyOrder (K : Type 0) : Type 0 where
  pub keq : K → K → Bool
  pub keq_iff : (a b : K) → (keq a b ≡ true) ↔ (a ≡ b)
  pub klt : K → K → Bool

abbrev pub Entries : Type 0 → Type 0 → Type 0
Entries K V = List (K × V)

module _ {K V : Type 0} ⦃o : KeyOrder K⦄ where
  abbrev pub lookup : K → Entries K V → Option V
  lookup k [] = none
  lookup k ((j, v) ∷ m) = if o.keq j k then some v else lookup k m

  abbrev pub replace : K → V → Entries K V → Entries K V
  replace k v [] = []
  replace k v ((j, w) ∷ m) = if o.keq j k then (j, v) ∷ m else (j, w) ∷ replace k v m

  -- A new key goes before the first greater one.
  abbrev pub place : K → V → Entries K V → Entries K V
  place k v [] = (k, v) ∷ []
  place k v ((j, w) ∷ m) = if o.klt k j then (k, v) ∷ (j, w) ∷ m else (j, w) ∷ place k v m

  unfoldable pub put_entry : K → V → Entries K V → Entries K V
  put_entry k v m = elim (lookup k m) [ none ↦ place k v m | some _ ↦ replace k v m ]

  put_entry_fresh :
      (k : K) (v : V) (m : Entries K V) → lookup k m ≡ none → put_entry k v m ≡ place k v m
  unfolding put_entry
  put_entry_fresh k v m h = ground arith

  put_entry_old :
      (k : K) (v : V) {u : V} (m : Entries K V)
      → lookup k m ≡ some u
      → put_entry k v m ≡ replace k v m
  unfolding put_entry
  put_entry_old k v m h = ground arith

  abbrev pub remove : K → Entries K V → Entries K V
  remove k [] = []
  remove k ((j, w) ∷ m) = if o.keq j k then m else (j, w) ∷ remove k m

  -- No key stands twice.
  abbrev pub Distinct : Entries K V → Type 0
  Distinct [] = Unit {0}
  Distinct ((k, v) ∷ m) = (lookup k m ≡ none) × Distinct m

  lookup-place :
      (k j : K) (v : V) (m : Entries K V)
      → lookup k m ≡ none
      → lookup j (place k v m) ≡ (if o.keq k j then some v else lookup j m)
  lookup-place k j v [] h = refl
  lookup-place k j v ((i, w) ∷ m) h =
      ground (arith, o.keq_iff k j, o.keq_iff i k, o.keq_iff i j, lookup-place k j v m)

  lookup-replace :
      (k j : K) (v : V) {u : V} (m : Entries K V)
      → lookup k m ≡ some u
      → lookup j (replace k v m) ≡ (if o.keq k j then some v else lookup j m)
  lookup-replace k j v [] h = ground arith
  lookup-replace k j v {u} ((i, w) ∷ m) h =
      ground (arith, o.keq_iff k j, o.keq_iff i k, o.keq_iff i j, lookup-replace k j v {u = u} m)

  pub lookup-put_entry :
      (k j : K) (v : V) (m : Entries K V)
      → lookup j (put_entry k v m) ≡ (if o.keq k j then some v else lookup j m)
  lookup-put_entry k j v m = elim (Option-cases (lookup k m)) [
    | inl e ↦ rw (put_entry_fresh k v m e) (lookup-place k j v m e)
    | inr (u, e) ↦ rw (put_entry_old k v m e) (lookup-replace k j v m e)
  ]

  Distinct-place :
      (k : K) (v : V) (m : Entries K V) → lookup k m ≡ none → Distinct m → Distinct (place k v m)
  Distinct-place k v [] h d = (refl, tt)
  Distinct-place k v ((j, w) ∷ m) h d =
      ground (arith, o.keq_iff k j, o.keq_iff j k, lookup-place k j v m, Distinct-place k v m)

  Distinct-replace :
      (k : K) (v : V) {u : V} (m : Entries K V)
      → lookup k m ≡ some u
      → Distinct m
      → Distinct (replace k v m)
  Distinct-replace k v [] h d = tt
  Distinct-replace k v {u} ((j, w) ∷ m) h d = ground (
    arith,
    o.keq_iff k j,
    o.keq_iff j k,
    lookup-replace k j v {u = u} m,
    Distinct-replace k v {u = u} m,
  )

  pub Distinct-put_entry :
      (k : K) (v : V) (m : Entries K V) → Distinct m → Distinct (put_entry k v m)
  Distinct-put_entry k v m d = elim (Option-cases (lookup k m)) [
    | inl e ↦ rw (put_entry_fresh k v m e) (Distinct-place k v m e d)
    | inr (u, e) ↦ rw (put_entry_old k v m e) (Distinct-replace k v m e d)
  ]

  pub lookup-remove :
      (k j : K) (m : Entries K V)
      → Distinct m
      → lookup j (remove k m) ≡ (if o.keq k j then none else lookup j m)
  lookup-remove k j [] d = ground arith
  lookup-remove k j ((i, w) ∷ m) d =
      ground (arith, o.keq_iff k j, o.keq_iff i k, o.keq_iff i j, lookup-remove k j m)

  pub Distinct-remove : (k : K) (m : Entries K V) → Distinct m → Distinct (remove k m)
  Distinct-remove k [] d = tt
  Distinct-remove k ((i, w) ∷ m) d =
      ground (arith, o.keq_iff k i, o.keq_iff i k, lookup-remove k i m, Distinct-remove k m)

  -- The sum over the bucket of what each entry weighs.
  abbrev pub total : (K → V → ℕ) → Entries K V → ℕ
  total w [] = 0
  total w ((k, v) ∷ m) = w k v + total w m

  total-place :
      (w : K → V → ℕ) (k : K) (v : V) (m : Entries K V) → total w (place k v m) ≡ total w m + w k v
  total-place w k v [] = omega arith
  total-place w k v ((j, u) ∷ m) = ground (arith, total-place w k v m)

  total-replace :
      (w : K → V → ℕ) (k : K) (v : V) {u : V} (m : Entries K V)
      → lookup k m ≡ some u
      → total w (replace k v m) + w k u ≡ total w m + w k v
  total-replace w k v [] h = ground arith
  total-replace w k v {u} ((j, x) ∷ m) h =
      ground (arith, o.keq_iff j k, total-replace w k v {u = u} m)

  pub total-put_entry_fresh :
      (w : K → V → ℕ) (k : K) (v : V) (m : Entries K V)
      → lookup k m ≡ none
      → total w (put_entry k v m) ≡ total w m + w k v
  total-put_entry_fresh w k v m h = rw (put_entry_fresh k v m h) (total-place w k v m)

  pub total-put_entry_old :
      (w : K → V → ℕ) (k : K) (v u : V) (m : Entries K V)
      → lookup k m ≡ some u
      → total w (put_entry k v m) + w k u ≡ total w m + w k v
  total-put_entry_old w k v u m h = rw (put_entry_old k v m h) (total-replace w k v m h)

  pub total-remove :
      (w : K → V → ℕ) (k : K) (u : V) (m : Entries K V)
      → lookup k m ≡ some u
      → total w (remove k m) + w k u ≡ total w m
  total-remove w k u [] h = ground arith
  total-remove w k u ((j, x) ∷ m) h = ground (arith, o.keq_iff j k, total-remove w k u m)
