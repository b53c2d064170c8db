-- ===== src/Dfs/Stored.antt =====
-- daemon/dfs/dfs.go: `Put` and then `Get`, with any store, and with MemShardStore.
use cerberus.Base.{
  ℕ, suc, ◌+◌, ◌<◌, ◌≡◌, refl, ap, ◌∙◌, subst, inl, inr, true, false, List, [], ◌∷◌, map, Option,
  none, some, ok, err, ltb, if◌then◌else◌, length, All, arith, Bool-cases,
}
use cerberus.Base.Bytes.{bytes_eq, bytes_eq_iff}
use cerberus.Dfs.{
  Bytes, Encoder, Outside, ShardStore, ChunkManifest, Manifest, Config, too_few_shards, validate,
  Put, placed, put, get, fetch_shards, present, put_block, mem_store,
}
use cerberus.Dfs.Shards.{Holds, OutsideLaws}
use cerberus.Dfs.Recover.{all_enough, get-Holds}
use cerberus.Dfs.Written.{Ends, Storing, then_put-Ends, Written, put_chunks-Ends}

module _ (o : Outside) (enc : Encoder) (cfg : Config) (valid : validate cfg ≡ none)
    (laws : OutsideLaws o enc cfg.data_shards cfg.parity_shards) (store : ShardStore) where
  k : ℕ
  k = cfg.data_shards

  positive : (0 < cfg.chunk_size) × (0 < cfg.data_shards) × (0 < cfg.parity_shards)
  positive = (ground arith, ground arith, ground arith)

  -- The manifest of a file: its counts are the configuration's, and its chunks hold the bytes.
  unfoldable Describes : (Bytes → Type 0) → Bytes → Manifest → Type 0
  Describes Has bytes man =
      (man.data_shards ≡ cfg.data_shards)
      × (man.parity_shards ≡ cfg.parity_shards)
      × (man.total_bytes ≡ length bytes)
      × Holds o enc cfg.data_shards cfg.parity_shards Has man.chunks bytes

  put-Ends :
      (E : Type 0) (storing : Storing o store E) (bytes : Bytes) (s : store.State)
      → Ends o store E
          (λ man s1. Describes (storing.Has s1) bytes man)
          (put o store cfg bytes false s)
  unfolding put Ends Describes Written
  put-Ends E storing bytes s = rw laws.encoder (
      then_put-Ends o store E storing _ _ _ _
        (put_chunks-Ends o enc cfg.data_shards cfg.parity_shards laws store E storing (length bytes)
          cfg.chunk_size bytes s positive.0 (omega arith))
        (λ cms s1 h. (refl, refl, refl, h.0)))

  get-Describes :
      (Has : Bytes → Type 0) (bytes : Bytes) (man : Manifest) (s : store.State)
      → Describes Has bytes man
      → get o store s man ≡ (
          if all_enough o enc cfg.data_shards cfg.parity_shards laws store s man.chunks
          then ok bytes
          else err too_few_shards)
  unfolding Describes
  get-Describes Has bytes man s h =
      get-Holds o enc cfg.data_shards cfg.parity_shards laws store Has s man bytes positive.1
        positive.2 h.0 h.1 h.3

  whatever :
      (p : Put o store Bytes) → Ends o store Unit (λ p s'. Unit × ((b : Bytes) → Unit → Unit)) p
  unfolding Ends
  whatever (ok p, s) = (tt, λ b h. tt)
  whatever (err e, s) = tt

  -- Any store at all.
  abbrev anything : Storing o store Unit
  anything = record {
    Has = λ s sh. Unit;
    stored = λ sh s. whatever (placed o store (store.put_shard (o.shard_cid sh) sh s));
  }

  ended :
      (E : Type 0) (P : Manifest → store.State → Type 0) (p : Put o store Manifest) (man : Manifest)
      (s : store.State)
      → Ends o store E P p
      → p ≡ (ok man, s)
      → P man s
  unfolding Ends
  ended E P p man s h e = subst (Ends o store E P) e h

  -- What is put and then read is the same bytes, whatever became of the store, or it is refused for
  -- want of shards.
  pub get-put :
      (bytes : Bytes) (s s1 s2 : store.State) (man : Manifest)
      → put o store cfg bytes false s ≡ (ok man, s1)
      → get o store s2 man ≡ (
          if all_enough o enc cfg.data_shards cfg.parity_shards laws store s2 man.chunks
          then ok bytes
          else err too_few_shards)
  get-put bytes s s1 s2 man e =
      get-Describes (λ sh. Unit) bytes man s2
        (ended Unit (λ man s1. Describes (λ sh. Unit) bytes man) _ man s1
          (put-Ends Unit anything bytes s) e)

-- A store that never fails and gives back what was put.
record Keeping (o : Outside) (store : ShardStore) : Type 1 where
  pub keeping : Storing o store ⊥
  pub gives :
      (s : store.State) (sh : Bytes)
      → keeping.Has s sh
      → store.get_shard s (o.shard_cid sh) ≡ some sh

module _ (o : Outside) (enc : Encoder) (k m : ℕ) (laws : OutsideLaws o enc k m) (store : ShardStore)
    (keeps : Keeping o store) where
  present_kept :
      (s : store.State) (shards : List Bytes)
      → All (keeps.keeping.Has s) shards
      → present (fetch_shards o store s (map o.shard_cid shards)) ≡ length shards
  unfolding fetch_shards present
  present_kept s [] h = refl
  present_kept s (sh ∷ shards) h =
      rw (keeps.gives s sh h.0, (bytes_eq_iff (o.shard_cid sh) (o.shard_cid sh)).1 refl)
        (ap suc (present_kept s shards h.1))

  all_enough_kept :
      (s : store.State) (cms : List ChunkManifest) (bytes : Bytes)
      → Holds o enc k m (keeps.keeping.Has s) cms bytes
      → all_enough o enc k m laws store s cms ≡ true
  unfolding all_enough Holds
  all_enough_kept s [] bytes h = refl
  all_enough_kept s (cm ∷ cms) bytes (chunk, rest, e, names, h) =
      let count : present (fetch_shards o store s (map o.shard_cid names.coding.shards)) ≡ k + m =
        present_kept s names.coding.shards names.held ∙ names.coding.count in
      let full : ltb (k + m) k ≡ false = ground arith in
      rw (names.named, count, full, all_enough_kept s cms rest h) refl

module _ (o : Outside) (enc : Encoder) (cfg : Config) (valid : validate cfg ≡ none)
    (laws : OutsideLaws o enc cfg.data_shards cfg.parity_shards) (store : ShardStore)
    (keeps : Keeping o store) where
  completes :
      (P : Manifest → store.State → Type 0) (p : Put o store Manifest)
      → Ends o store ⊥ P p
      → (man : Manifest) × (s1 : store.State) × (p ≡ (ok man, s1)) × P man s1
  unfolding Ends
  completes P (ok man, s1) h = (man, s1, refl, h)
  completes P (err e, s1) h = absurd h

  get-put_kept :
      (bytes : Bytes) (s : store.State)
      → (man : Manifest) × (s1 : store.State) × (put o store cfg bytes false s ≡ (ok man, s1))
        × (get o store s1 man ≡ ok bytes)
  unfolding Describes
  get-put_kept bytes s =
      let (man, s1, e, h) =
        completes _ _ (put-Ends o enc cfg valid laws store ⊥ keeps.keeping bytes s) in
      let full =
        all_enough_kept o enc cfg.data_shards cfg.parity_shards laws store keeps s1 man.chunks bytes
          h.3 in
      (
        man,
        s1,
        e,
        get-Describes o enc cfg valid laws store (keeps.keeping.Has s1) bytes man s1 h
            ∙ ap (λ b. if b then ok bytes else err too_few_shards) full,
      )

-- MemShardStore keeps what it is given, since what has one CID is the same bytes.
mem_keeps :
    (o : Outside) → ((a b : Bytes) → o.shard_cid a ≡ o.shard_cid b → a ≡ b) → Keeping o mem_store
unfolding Ends
mem_keeps o injective = record { keeping = keeping; gives = λ s sh h. h }
  where
    same : (c : Bytes) → bytes_eq c c ≡ true
    same c = (bytes_eq_iff c c).1 refl

    kept :
        (sh b : Bytes) (s : mem_store.State)
        → s (o.shard_cid b) ≡ some b
        → put_block (o.shard_cid sh) sh s (o.shard_cid b) ≡ some b
    kept sh b s h = elim (Bool-cases (bytes_eq (o.shard_cid sh) (o.shard_cid b))) [
      | inl q ↦
          rw q (ap some (injective sh b ((bytes_eq_iff (o.shard_cid sh) (o.shard_cid b)).0 q)))
      | inr q ↦ rw q h
    ]

    keeping : Storing o mem_store ⊥
    keeping = record {
      Has = λ s sh. s (o.shard_cid sh) ≡ some sh;
      stored = λ sh s. (rw (same (o.shard_cid sh)) refl, λ b h. kept sh b s h);
    }

-- What is put into a MemShardStore is read from it.
pub get-put_mem :
    (o : Outside) (enc : Encoder) (cfg : Config)
    → validate cfg ≡ none
    → OutsideLaws o enc cfg.data_shards cfg.parity_shards
    → (bytes : Bytes) (blocks : Bytes → Option Bytes)
    → (man : Manifest) × (blocks1 : Bytes → Option Bytes) × (put o mem_store cfg bytes false blocks
        ≡ (ok man, blocks1))
      × (get o mem_store blocks1 man ≡ ok bytes)
get-put_mem o enc cfg valid laws bytes blocks =
    get-put_kept o enc cfg valid laws mem_store (mem_keeps o laws.cid_injective) bytes blocks
