-- ===== src/Dfs/Recover.antt =====
-- daemon/dfs/dfs.go: what `Get` makes of a manifest whose chunks hold some bytes.
use cerberus.Base.{
  ℕ, ◌+◌, ◌<◌, ◌≡◌, refl, sym, ap, ◌∙◌, Bool, true, false, ◌&&◌, List, [], ◌∷◌, ◌++◌, ok, err, ◌==◌,
  length, if◌then◌else◌, arith, ==_iff, length-map,
}
use cerberus.Dfs.{
  Bytes, Encoder, Outside, ShardStore, ChunkManifest, Manifest, too_few_shards, get_chunks,
  then_get, get,
}
use cerberus.Dfs.Shards.{Names, Holds, OutsideLaws, enough, get_chunk-Names}

module _ (o : Outside) (enc : Encoder) (k m : ℕ) (laws : OutsideLaws o enc k m)
    (store : ShardStore) where
  unfoldable pub all_enough : store.State → List ChunkManifest → Bool
  all_enough s [] = true
  all_enough s (cm ∷ cms) = enough o enc k m laws store s cm && all_enough s cms

  Names-count :
      {Has : Bytes → Type 0} (cm : ChunkManifest) (chunk : Bytes)
      → Names o enc k m Has cm chunk
      → length cm.shard_cids ≡ k + m
  Names-count cm chunk h =
      ap length h.named ∙ length-map o.shard_cid h.coding.shards ∙ h.coding.count

  pub get_chunks-Holds :
      (Has : Bytes → Type 0) (s : store.State) (cms : List ChunkManifest) (bytes : Bytes)
      → Holds o enc k m Has cms bytes
      → get_chunks o store s enc k (k + m) cms
        ≡ (if all_enough s cms then ok bytes else err too_few_shards)
  unfolding get_chunks Holds all_enough
  get_chunks-Holds Has s [] bytes h = ap ok (sym h)
  get_chunks-Holds Has s (cm ∷ cms) bytes (chunk, rest, e, names, h) =
      rw
        (
          e,
          (==_iff (length cm.shard_cids) (k + m)).1 (Names-count cm chunk names),
          get_chunk-Names o enc k m laws store s cm chunk names,
          get_chunks-Holds Has s cms rest h,
        )
        (joined (enough o enc k m laws store s cm) (all_enough s cms))
    where
      joined :
          (a b : Bool)
          → then_get o store (if a then ok chunk else err too_few_shards) (λ c.
            then_get o store (if b then ok rest else err too_few_shards) (λ out. ok (c ++ out)))
            ≡ (if a && b then ok (chunk ++ rest) else err too_few_shards)
      joined true true = refl
      joined true false = refl
      joined false b = refl

  pub get-Holds :
      (Has : Bytes → Type 0) (s : store.State) (man : Manifest) (bytes : Bytes)
      → 0 < k
      → 0 < m
      → man.data_shards ≡ k
      → man.parity_shards ≡ m
      → Holds o enc k m Has man.chunks bytes
      → get o store s man ≡ (if all_enough s man.chunks then ok bytes else err too_few_shards)
  unfolding get
  get-Holds Has s man bytes hk hm ek em h =
      let k_not : (k == 0) ≡ false = ground arith in
      let m_not : (m == 0) ≡ false = ground arith in
      rw (ek, em, k_not, m_not, laws.encoder) (get_chunks-Holds Has s man.chunks bytes h)
