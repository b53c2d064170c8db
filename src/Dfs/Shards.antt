-- ===== src/Dfs/Shards.antt =====
-- daemon/dfs/dfs.go: what the erasure code and the hash promise, and the shards that a node gets back.
use cerberus.Base.{
  ℕ, ◌+◌, ◌≤◌, ◌<◌, ◌≡◌, refl, inl, inr, Bool, true, false, not, List, [], ◌∷◌, ◌++◌, map, Option,
  none, some, ok, err, ltb, ◌⊎◌, All, length, if◌then◌else◌, arith, Bool-cases,
}
use cerberus.Base.Bytes.{bytes_eq, bytes_eq_iff}
use cerberus.Dfs.{
  Bytes, Encoder, Outside, ShardStore, ChunkManifest, too_few_shards, checked_shard, fetch_shards,
  present, rebuild_chunk, get_chunk, join_verified,
}

-- Some of the shards, each in its place.
unfoldable pub Matches : List (Option Bytes) → List Bytes → Type 0
Matches [] [] = Unit
Matches [] (sh ∷ shards) = ⊥
Matches (a ∷ avail) [] = ⊥
Matches (none ∷ avail) (sh ∷ shards) = Matches avail shards
Matches (some a ∷ avail) (sh ∷ shards) = (a ≡ sh) × Matches avail shards

-- How a chunk is coded: any k of its k + m shards give all of them, and these give the chunk.
pub record Coded (enc : Encoder) (k m : ℕ) (chunk : Bytes) : Type 0 where
  pub data_parts : List Bytes
  pub shards : List Bytes
  pub splits : enc.split chunk ≡ some data_parts
  pub encodes : enc.encode data_parts ≡ some shards
  pub count : length shards ≡ k + m
  pub recovers :
      (avail : List (Option Bytes))
      → Matches avail shards
      → k ≤ present avail
      → enc.reconstruct avail ≡ some shards
  pub verifies : enc.verify shards ≡ some true
  pub joins : enc.join shards (length chunk) ≡ some chunk

-- A chunk manifest that names the shards of a chunk, of which each has some predicate.
pub record Names (o : Outside) (enc : Encoder) (k m : ℕ) (Has : Bytes → Type 0) (cm : ChunkManifest)
    (chunk : Bytes) : Type 0 where
  pub coding : Coded enc k m chunk
  pub named : cm.shard_cids ≡ map o.shard_cid coding.shards
  pub sized : cm.chunk_bytes ≡ length chunk
  pub held : All Has coding.shards

-- The chunks hold these bytes, one after the other.
unfoldable pub Holds :
    Outside → Encoder → ℕ → ℕ → (Bytes → Type 0) → List ChunkManifest → Bytes → Type 0
Holds o enc k m Has [] bytes = bytes ≡ []
Holds o enc k m Has (cm ∷ cms) bytes =
    (chunk : Bytes) × (rest : Bytes) × (bytes ≡ chunk ++ rest)
    × Names o enc k m Has cm chunk
    × Holds o enc k m Has cms rest

-- What the library documents of the code, for chunks that are not empty, and what the system takes
-- of SHA-256: no two byte strings have one CID.
pub record OutsideLaws (o : Outside) (enc : Encoder) (k m : ℕ) : Type 0 where
  pub encoder : o.new_encoder k m ≡ some enc
  pub coded : (chunk : Bytes) → 0 < length chunk → Coded enc k m chunk
  pub cid_injective : (a b : Bytes) → o.shard_cid a ≡ o.shard_cid b → a ≡ b

module _ (o : Outside) (enc : Encoder) (k m : ℕ) (laws : OutsideLaws o enc k m)
    (store : ShardStore) where
  -- Whatever the store answers, a shard that passes the check is the one that was put.
  fetch_shards-Matches :
      (s : store.State) (shards : List Bytes)
      → Matches (fetch_shards o store s (map o.shard_cid shards)) shards
  unfolding fetch_shards Matches
  fetch_shards-Matches s [] = tt
  fetch_shards-Matches s (sh ∷ shards) =
      step (store.get_shard s (o.shard_cid sh)) (fetch_shards-Matches s shards)
    where
      step :
          (a : Option Bytes)
          → Matches (fetch_shards o store s (map o.shard_cid shards)) shards
          → Matches
              (checked_shard o store (o.shard_cid sh) a
                ∷ fetch_shards o store s (map o.shard_cid shards))
              (sh ∷ shards)
      step none h = h
      step (some b) h = elim (Bool-cases (bytes_eq (o.shard_cid b) (o.shard_cid sh))) [
        | inl q ↦
            rw q (laws.cid_injective b sh ((bytes_eq_iff (o.shard_cid b) (o.shard_cid sh)).0 q), h)
        | inr q ↦ rw q h
      ]

  abbrev pub enough : store.State → ChunkManifest → Bool
  enough s cm = not (ltb (present (fetch_shards o store s cm.shard_cids)) k)

  -- A chunk is given back exactly, or refused for want of k good shards.
  pub get_chunk-Names :
      {Has : Bytes → Type 0} (s : store.State) (cm : ChunkManifest) (chunk : Bytes)
      → Names o enc k m Has cm chunk
      → get_chunk o store s enc k cm ≡ (if enough s cm then ok chunk else err too_few_shards)
  get_chunk-Names {Has} s cm chunk h =
      rw (h.named, h.sized) (go (Bool-cases (ltb (present avail) k)))
    where
      avail : List (Option Bytes)
      avail = fetch_shards o store s (map o.shard_cid h.coding.shards)

      go :
          (ltb (present avail) k ≡ true) ⊎ (ltb (present avail) k ≡ false)
          → rebuild_chunk enc k (length chunk) avail
            ≡ (if not (ltb (present avail) k) then ok chunk else err too_few_shards)
      go (inl q) = rw q refl
      go (inr q) =
          rw
            (
              q,
              h.coding.recovers avail (fetch_shards-Matches s h.coding.shards) (ground arith),
              h.coding.verifies,
              join_verified,
              h.coding.joins,
            )
            refl
