-- ===== src/Dfs/Shared.antt =====
-- daemon/dfs/dfs.go: shards of a chunk that are the same bytes.
use cerberus.Base.{
  ◌+◌, ◌<◌, ◌≡◌, refl, true, false, List, [], ◌∷◌, Option, some, err, ltb, ◌==◌, ==_iff, length,
  All, arith,
}
use cerberus.Base.Bytes.{bytes_eq_iff}
use cerberus.Dfs.{
  Bytes, Encoder, Outside, ChunkManifest, Manifest, too_few_shards, get, get_chunks, fetch_shards,
  present, drop_block, mem_store,
}

module _ (o : Outside) (c : Bytes) (blocks : Bytes → Option Bytes) where
  none_present :
      (cids : List Bytes)
      → All (λ d. d ≡ c) cids
      → present (fetch_shards o mem_store (drop_block c blocks) cids) ≡ 0
  unfolding fetch_shards present
  none_present [] h = refl
  none_present (d ∷ cids) h = rw (h.0, (bytes_eq_iff c c).1 refl) (none_present cids h.1)

  -- Where every shard of a chunk has one CID, the loss of this one block is the loss of the file.
  get-drop_block :
      (enc : Encoder) (man : Manifest) (cm : ChunkManifest) (cms : List ChunkManifest)
      → o.new_encoder man.data_shards man.parity_shards ≡ some enc
      → 0 < man.data_shards
      → 0 < man.parity_shards
      → man.chunks ≡ cm ∷ cms
      → length cm.shard_cids ≡ man.data_shards + man.parity_shards
      → All (λ d. d ≡ c) cm.shard_cids
      → get o mem_store (drop_block c blocks) man ≡ err too_few_shards
  unfolding get get_chunks
  get-drop_block enc man cm cms he hk hm hc count same =
      let k_not : (man.data_shards == 0) ≡ false = ground arith in
      let m_not : (man.parity_shards == 0) ≡ false = ground arith in
      let few : ltb 0 man.data_shards ≡ true = ground arith in
      rw
        (
          k_not,
          m_not,
          he,
          hc,
          (==_iff (length cm.shard_cids) (man.data_shards + man.parity_shards)).1 count,
          none_present cm.shard_cids same,
          few,
        )
        refl
