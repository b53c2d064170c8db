-- ===== src/Scheduler/Pipeline.antt =====
-- daemon/scheduler/scheduler.go: round robin over a ranking.
use cerberus.Base.{
  ℕ, zero, suc, ◌+◌, ◌%◌, ◌<◌, ◌≡◌, ◌≢◌, refl, ap, ◌∙◌, true, false, List, [], ◌∷◌, arith, All,
  Bool-cases, ltb, length, ◌⊎◌, inl, inr,
}
use native.Mathlib.Nat.{suc-mod, mod-lt, mod_self, mod-eq_of_lt}
use cerberus.Base.Bytes.{bytes_eq}
use cerberus.Scheduler.{PeerId, Shard, CostModel, ranked_at, primaries, backups}
use cerberus.Scheduler.Rank.{bytes_eq_sym}
use cerberus.Scheduler.Apart.{Different, Pairs}

module _ (cost : CostModel) where
  ranked_at-fresh :
      (x : PeerId) (xs : List PeerId) (i : ℕ)
      → All (λ y. bytes_eq x y ≡ false) xs
      → i < length xs
      → bytes_eq x (ranked_at cost xs i) ≡ false
  ranked_at-fresh x [] i a h = absurd (omega (arith, h))
  ranked_at-fresh x (y ∷ xs) zero a h = a.0
  ranked_at-fresh x (y ∷ xs) (suc i) a h = ranked_at-fresh x xs i a.1 (omega (arith, h))

  ranked_at-apart :
      (xs : List PeerId) (i j : ℕ)
      → Different xs
      → i < length xs
      → j < length xs
      → i ≢ j
      → bytes_eq (ranked_at cost xs i) (ranked_at cost xs j) ≡ false
  ranked_at-apart [] i j d h k n = absurd (omega (arith, h))
  ranked_at-apart (x ∷ xs) zero zero d h k n = absurd (n refl)
  ranked_at-apart (x ∷ xs) zero (suc j) d h k n = ranked_at-fresh x xs j d.0 (omega (arith, k))
  ranked_at-apart (x ∷ xs) (suc i) zero d h k n =
      bytes_eq_sym x (ranked_at cost xs i) (ranked_at-fresh x xs i d.0 (omega (arith, h)))
  ranked_at-apart (x ∷ xs) (suc i) (suc j) d h k n =
      ranked_at-apart xs i j d.1 (omega (arith, h)) (omega (arith, k)) (λ e. n (ap suc e))

  next_differs : (i n : ℕ) → 1 < n → (i % n < n) × ((i + 1) % n < n) × (i % n ≢ (i + 1) % n)
  next_differs i n h = (
    here,
    mod-lt (i + 1) (omega (arith, h)),
    λ q. differ (i % n) here (next_mod i) q (wrap (Bool-cases (ltb (suc (i % n)) n))),
  )
    where
      next_mod : (i : ℕ) → (i + 1) % n ≡ suc (i % n) % n
      next_mod i = let one : i + 1 ≡ suc i = omega arith in ap (λ t. t % n) one ∙ suc-mod i n

      here : i % n < n
      here = mod-lt i (omega (arith, h))

      wrap :
          (ltb (suc (i % n)) n ≡ true) ⊎ (ltb (suc (i % n)) n ≡ false)
          → (suc (i % n) % n ≡ suc (i % n)) ⊎ ((suc (i % n) ≡ n) × (suc (i % n) % n ≡ 0))
      wrap (inl b) = inl (mod-eq_of_lt (ground arith))
      wrap (inr b) =
          let last : suc (i % n) ≡ n = ground arith in inr (last, ap (λ t. t % n) last ∙ mod_self n)

      differ :
          (r : ℕ)
          → r < n
          → (i + 1) % n ≡ suc r % n
          → r ≡ (i + 1) % n
          → (suc r % n ≡ suc r) ⊎ ((suc r ≡ n) × (suc r % n ≡ 0))
          → ⊥
      differ r l e q (inl a) = omega (arith, q ∙ e ∙ a)
      differ r l e q (inr (a, b)) = omega (arith, h, a, q ∙ e ∙ b)

  pub shards-Pairs :
      (ranked : List PeerId) (i : ℕ) (shards : List Shard)
      → Different ranked
      → 1 < length ranked
      → Pairs (primaries cost ranked i shards) (backups cost ranked i shards)
  unfolding primaries backups
  shards-Pairs ranked i [] d h = tt
  shards-Pairs ranked i (sh ∷ shards) d h =
      let (a, b, n) = next_differs i (length ranked) h in
      (
        ranked_at-apart ranked (i % length ranked) ((i + 1) % length ranked) d a b n,
        shards-Pairs ranked (i + 1) shards d h,
      )
