-- ===== src/Dfs.antt =====
-- daemon/dfs/dfs.go: files in chunks, erasure coded into shards that their hashes address. The
-- Reed-Solomon coder and the hash of a content address are parameters, and where shards live is the
-- interface that it is in the source. The reader of `Put` is its bytes, and whether it fails then.
pub mod Shards
pub mod Recover
pub mod Written
pub mod Stored
pub mod Shared
mod Tests
use cerberus.Base.{
  ℕ, zero, suc, ◌+◌, ◌-◌, Bool, true, false, not, ◌||◌, List, [], ◌∷◌, ◌++◌, Option, none, some,
  Result, ok, err, ltb, ◌==◌, length, take, drop, if◌then◌else◌,
}
use cerberus.Base.Bytes.{bytes_eq}

abbrev pub Bytes : Type 0
Bytes = List ℕ

-- reedsolomon.Encoder for one pair of shard counts. A call that fails is `none`.
pub record Encoder : Type 0 where
  pub split : Bytes → Option (List Bytes)
  pub encode : List Bytes → Option (List Bytes)
  pub reconstruct : List (Option Bytes) → Option (List Bytes)
  pub verify : List Bytes → Option Bool
  pub join : List Bytes → ℕ → Option Bytes

-- reedsolomon.New, and ShardCID: the CID of bytes, as the bytes of its text.
pub record Outside : Type 0 where
  pub new_encoder : ℕ → ℕ → Option Encoder
  pub shard_cid : Bytes → Bytes

-- `PutShard` gives a placement hint.
pub record ShardStore : Type 1 where
  pub State : Type 0
  pub put_shard : Bytes → Bytes → State → Option Bytes × State
  pub get_shard : State → Bytes → Option Bytes

pub record ChunkManifest : Type 0 where
  pub shard_cids : List Bytes
  pub placement : List Bytes
  pub chunk_bytes : ℕ

pub record Manifest : Type 0 where
  pub root_id : Bytes
  pub data_shards : ℕ
  pub parity_shards : ℕ
  pub chunk_size : ℕ
  pub total_bytes : ℕ
  pub chunks : List ChunkManifest

pub record Config : Type 0 where
  pub chunk_size : ℕ
  pub data_shards : ℕ
  pub parity_shards : ℕ

pub data DfsError : Type 0 where
  bad_config no_encoder split_failed encode_failed store_failed read_failed : DfsError
  bad_counts wrong_shard_count too_few_shards reconstruct_failed verify_failed parity_failed :
      DfsError
  join_failed : DfsError

-- `validate`: the counts are ints in the source, and 0 stands for what is not positive.
abbrev pub validate : Config → Option DfsError
validate c =
    if c.chunk_size == 0
    then some bad_config
    else if c.data_shards == 0 || c.parity_shards == 0
    then some bad_config
    else none

-- `New`.
abbrev pub new_fs : Config → Result DfsError Config
new_fs c = elim (validate c) [ none ↦ ok c | some e ↦ err e ]

module _ (o : Outside) (store : ShardStore) where
  abbrev pub Put : Type 0 → Type 0
  Put A = Result DfsError A × store.State

  unfoldable pub then_put : {A B : Type 0} → Put A → (A → store.State → Put B) → Put B
  then_put (ok a, s) f = f a s
  then_put (err e, s) f = (err e, s)

  abbrev pub placed : Option Bytes × store.State → Put Bytes
  placed (none, s) = (err store_failed, s)
  placed (some p, s) = (ok p, s)

  abbrev pub add_shard : Bytes → Bytes → ChunkManifest → ChunkManifest
  add_shard c p cm = record cm { shard_cids = c ∷ cm.shard_cids; placement = p ∷ cm.placement }

  -- `for i, sh := range shards { ... }`
  unfoldable pub put_shards : List Bytes → ℕ → store.State → Put ChunkManifest
  put_shards [] n s = (ok (record { shard_cids = []; placement = []; chunk_bytes = n }), s)
  put_shards (sh ∷ shards) n s = then_put (placed (store.put_shard (o.shard_cid sh) sh s)) (λ p s'.
      then_put (put_shards shards n s') (λ cm s''. (ok (add_shard (o.shard_cid sh) p cm), s'')))

  abbrev pub put_encoded : Option (List Bytes) → ℕ → store.State → Put ChunkManifest
  put_encoded none n s = (err encode_failed, s)
  put_encoded (some shards) n s = put_shards shards n s

  abbrev pub put_split : Encoder → Option (List Bytes) → ℕ → store.State → Put ChunkManifest
  put_split enc none n s = (err split_failed, s)
  put_split enc (some shards) n s = put_encoded (enc.encode shards) n s

  unfoldable pub put_chunk : Encoder → Bytes → store.State → Put ChunkManifest
  put_chunk enc chunk s = put_split enc (enc.split chunk) (length chunk) s

  -- The end of the reader: the bytes of a last chunk, if any, and then an error or none.
  abbrev pub finish : Bool → store.State → Put (List ChunkManifest)
  finish broken s = if broken then (err read_failed, s) else (ok [], s)

  abbrev pub put_last : Encoder → Bool → Bytes → store.State → Put (List ChunkManifest)
  put_last enc broken [] s = finish broken s
  put_last enc broken (b ∷ bs) s =
      then_put (put_chunk enc (b ∷ bs) s)
        (λ cm s'. then_put (finish broken s') (λ cms s''. (ok (cm ∷ cms), s'')))

  -- The loop of `Put`, one chunk in each round.
  unfoldable pub put_chunks :
      ℕ → Encoder → ℕ → Bool → Bytes → store.State → Put (List ChunkManifest)
  put_chunks zero enc size broken bytes s = put_last enc broken bytes s
  put_chunks (suc fuel) enc size broken bytes s =
      let more = then_put (put_chunk enc (take size bytes) s) (λ cm s'.
        then_put (put_chunks fuel enc size broken (drop size bytes) s')
          (λ cms s''. (ok (cm ∷ cms), s''))) in
      if ltb (length bytes) size then put_last enc broken bytes s else more

  abbrev pub all_cids : List ChunkManifest → Bytes
  all_cids [] = []
  all_cids (cm ∷ cms) = joined_cids cm.shard_cids ++ all_cids cms
    where
      joined_cids : List Bytes → Bytes
      joined_cids [] = []
      joined_cids (c ∷ cs) = c ++ joined_cids cs

  abbrev pub put_with : Config → Bytes → Bool → Option Encoder → store.State → Put Manifest
  put_with cfg bytes broken none s = (err no_encoder, s)
  put_with cfg bytes broken (some enc) s =
      then_put (put_chunks (length bytes) enc cfg.chunk_size broken bytes s) (λ cms s'. (
        ok (record {
          root_id = o.shard_cid (all_cids cms);
          data_shards = cfg.data_shards;
          parity_shards = cfg.parity_shards;
          chunk_size = cfg.chunk_size;
          total_bytes = length bytes;
          chunks = cms;
        }),
        s',
      ))

  unfoldable pub put : Config → Bytes → Bool → store.State → Put Manifest
  put cfg bytes broken s =
      put_with cfg bytes broken (o.new_encoder cfg.data_shards cfg.parity_shards) s

  -- A shard that is there and hashes to its CID.
  abbrev pub checked_shard : Bytes → Option Bytes → Option Bytes
  checked_shard c none = none
  checked_shard c (some b) = if not (bytes_eq (o.shard_cid b) c) then none else some b

  unfoldable pub fetch_shards : store.State → List Bytes → List (Option Bytes)
  fetch_shards s [] = []
  fetch_shards s (c ∷ cids) = checked_shard c (store.get_shard s c) ∷ fetch_shards s cids

unfoldable pub present : List (Option Bytes) → ℕ
present [] = 0
present (none ∷ shards) = present shards
present (some b ∷ shards) = suc (present shards)

abbrev pub join_verified : Encoder → ℕ → List Bytes → Option Bool → Result DfsError Bytes
join_verified enc n shards none = err verify_failed
join_verified enc n shards (some false) = err parity_failed
join_verified enc n shards (some true) = elim (enc.join shards n) [
  | none ↦ err join_failed
  | some chunk ↦ ok chunk
]

abbrev pub verify_rebuilt : Encoder → ℕ → Option (List Bytes) → Result DfsError Bytes
verify_rebuilt enc n none = err reconstruct_failed
verify_rebuilt enc n (some shards) = join_verified enc n shards (enc.verify shards)

abbrev pub rebuild_chunk : Encoder → ℕ → ℕ → List (Option Bytes) → Result DfsError Bytes
rebuild_chunk enc k n shards =
    if ltb (present shards) k
    then err too_few_shards
    else verify_rebuilt enc n (enc.reconstruct shards)

module _ (o : Outside) (store : ShardStore) where
  abbrev pub get_chunk : store.State → Encoder → ℕ → ChunkManifest → Result DfsError Bytes
  get_chunk s enc k cm = rebuild_chunk enc k cm.chunk_bytes (fetch_shards o store s cm.shard_cids)

  abbrev pub then_get :
      Result DfsError Bytes → (Bytes → Result DfsError Bytes) → Result DfsError Bytes
  then_get (ok a) f = f a
  then_get (err e) f = err e

  unfoldable pub get_chunks :
      store.State → Encoder → ℕ → ℕ → List ChunkManifest → Result DfsError Bytes
  get_chunks s enc k total [] = ok []
  get_chunks s enc k total (cm ∷ cms) =
      let rest = get_chunks s enc k total cms in
      if not (length cm.shard_cids == total)
      then err wrong_shard_count
      else then_get (get_chunk s enc k cm) (λ chunk. then_get rest (λ out. ok (chunk ++ out)))

  abbrev pub get_with : store.State → Manifest → Option Encoder → Result DfsError Bytes
  get_with s man none = err no_encoder
  get_with s man (some enc) =
      get_chunks s enc man.data_shards (man.data_shards + man.parity_shards) man.chunks

  unfoldable pub get : store.State → Manifest → Result DfsError Bytes
  get s man =
      if man.data_shards == 0 || man.parity_shards == 0
      then err bad_counts
      else get_with s man (o.new_encoder man.data_shards man.parity_shards)

-- MemShardStore.
abbrev pub put_block : Bytes → Bytes → (Bytes → Option Bytes) → Bytes → Option Bytes
put_block c shard blocks d = if bytes_eq c d then some shard else blocks d

abbrev pub mem_hint : Bytes
mem_hint = b'm' ∷ b'e' ∷ b'm' ∷ []

abbrev pub mem_store : ShardStore
mem_store = record {
  State = Bytes → Option Bytes;
  put_shard = λ c shard blocks. (some mem_hint, put_block c shard blocks);
  get_shard = λ blocks c. blocks c;
}

-- `Drop` and `Corrupt`, which lose and change what is stored.
abbrev pub drop_block : Bytes → (Bytes → Option Bytes) → Bytes → Option Bytes
drop_block c blocks d = if bytes_eq c d then none else blocks d

abbrev pub corrupt_block : Bytes → Bytes → (Bytes → Option Bytes) → Bytes → Option Bytes
corrupt_block c bad blocks = put_block c bad blocks
