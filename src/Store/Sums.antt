-- ===== src/Store/Sums.antt =====
-- Sums over the keys of a bucket, as a loop over a snapshot of the keys takes them.
use cerberus.Base.{ℕ, ◌+◌, ◌≡◌, refl, ap, false, List, [], ◌∷◌, Option, none, some, arith, map}
use cerberus.Store.Bucket.{KeyOrder, Entries, lookup, Distinct, total}

module _ {K : Type 0} ⦃o : KeyOrder K⦄ where
  -- `k` is none of the keys.
  abbrev pub Absent : K → List K → Type 0
  Absent k [] = Unit {0}
  Absent k (j ∷ js) = (o.keq k j ≡ false) × Absent k js

  abbrev pub Unrepeated : List K → Type 0
  Unrepeated [] = Unit {0}
  Unrepeated (k ∷ ks) = Absent k ks × Unrepeated ks

module _ {K V : Type 0} ⦃o : KeyOrder K⦄ where
  abbrev keys_of : Entries K V → List K
  keys_of m = map (λ e. e.0) m

  abbrev pub weight_at : (K → V → ℕ) → K → Option V → ℕ
  weight_at w k none = 0
  weight_at w k (some v) = w k v

  -- The sum over a list of keys of what stands under them.
  abbrev pub total_at : (K → V → ℕ) → List K → Entries K V → ℕ
  total_at w [] m = 0
  total_at w (k ∷ ks) m = weight_at w k (lookup k m) + total_at w ks m

  Absent-keys : (k : K) (m : Entries K V) → lookup k m ≡ none → Absent k (keys_of m)
  Absent-keys k [] h = tt
  Absent-keys k ((j, v) ∷ m) h = ground (arith, o.keq_iff j k, o.keq_iff k j, Absent-keys k m)

  pub Unrepeated-keys : (m : Entries K V) → Distinct m → Unrepeated (keys_of m)
  Unrepeated-keys [] d = tt
  Unrepeated-keys ((k, v) ∷ m) d = (Absent-keys k m d.0, Unrepeated-keys m d.1)

  -- Where two buckets agree on all keys but `k`, sums that leave `k` out agree.
  pub total_at-agree :
      (w : K → V → ℕ) (k : K) (ks : List K) (m n : Entries K V)
      → ((j : K) → o.keq k j ≡ false → lookup j m ≡ lookup j n)
      → Absent k ks
      → total_at w ks m ≡ total_at w ks n
  total_at-agree w k [] m n h a = refl
  total_at-agree w k (j ∷ js) m n h a =
      omega (arith, ap (weight_at w j) (h j a.0), total_at-agree w k js m n h a.1)

  pub total_at-keys :
      (w : K → V → ℕ) (m : Entries K V) → Distinct m → total_at w (keys_of m) m ≡ total w m
  total_at-keys w [] d = refl
  total_at-keys w ((k, v) ∷ m) d = ground (
    arith,
    o.keq_iff k k,
    total_at-agree w k (keys_of m) ((k, v) ∷ m) m (λ j e. ground (arith)) (Absent-keys k m d.0),
    total_at-keys w m d.1,
  )

  pub total-eq :
      (w w' : K → V → ℕ) (m : Entries K V)
      → ((k : K) (v : V) → w k v ≡ w' k v)
      → total w m ≡ total w' m
  total-eq w w' [] h = refl
  total-eq w w' ((k, v) ∷ m) h = omega (arith, h k v, total-eq w w' m h)
