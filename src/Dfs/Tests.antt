-- ===== src/Dfs/Tests.antt =====
-- daemon/dfs/dfs.go at concrete inputs: a code of one data shard and one copy, and a CID that is the bytes.
use cerberus.Base.{
  ℕ, ◌≤◌, ◌≡◌, refl, true, false, List, [], ◌∷◌, Option, none, some, ok, err, if◌then◌else◌, arith,
}
use cerberus.Base.Bytes.{bytes_eq}
use cerberus.Dfs.{
  Bytes, Encoder, Outside, ChunkManifest, Manifest, Config, too_few_shards, put, put_chunks,
  put_chunk, put_shards, then_put, get, get_chunks, fetch_shards, present, put_block, corrupt_block,
  mem_hint, mem_store,
}
use cerberus.Dfs.Shards.{Matches, OutsideLaws}
use cerberus.Dfs.Recover.{all_enough}
use cerberus.Dfs.Stored.{get-put, get-put_mem}

abbrev copies : List (Option Bytes) → Option (List Bytes)
copies [] = none
copies (none ∷ shards) = copies shards
copies (some a ∷ shards) = some (a ∷ a ∷ [])

abbrev head : List Bytes → Option Bytes
head [] = none
head (a ∷ shards) = some a

abbrev mirror : Encoder
mirror = record {
  split = λ c. some (c ∷ c ∷ []);
  encode = λ shards. some shards;
  reconstruct = copies;
  verify = λ shards. some true;
  join = λ shards n. head shards;
}

abbrev outside : Outside
outside = record { new_encoder = λ k m. some mirror; shard_cid = λ b. b }

copies-Matches :
    (c : Bytes) (avail : List (Option Bytes))
    → Matches avail (c ∷ c ∷ [])
    → 1 ≤ present avail
    → copies avail ≡ some (c ∷ c ∷ [])
unfolding Matches present
copies-Matches c [] h n = absurd h
copies-Matches c (some a ∷ avail) h n = rw h.0 refl
copies-Matches c (none ∷ []) h n = absurd h
copies-Matches c (none ∷ some a ∷ avail) h n = rw h.0 refl
copies-Matches c (none ∷ none ∷ []) h n = absurd (omega arith)
copies-Matches c (none ∷ none ∷ a ∷ avail) h n = absurd h

outside_laws : OutsideLaws outside mirror 1 1
outside_laws = record {
  encoder = refl;
  coded = λ c pos. record {
    data_parts = c ∷ c ∷ [];
    shards = c ∷ c ∷ [];
    splits = refl;
    encodes = refl;
    count = refl;
    recovers = copies-Matches c;
    verifies = refl;
    joins = refl;
  };
  cid_injective = λ a b h. h;
}

abbrev cfg : Config
cfg = record { chunk_size = 2; data_shards = 1; parity_shards = 1 }

abbrev file : Bytes
file = 7 ∷ 8 ∷ 9 ∷ []

abbrev chunk_of : Bytes → ℕ → ChunkManifest
chunk_of c n = record {
  shard_cids = c ∷ c ∷ [];
  placement = mem_hint ∷ mem_hint ∷ [];
  chunk_bytes = n;
}

abbrev man : Manifest
man = record {
  root_id = 7 ∷ 8 ∷ 7 ∷ 8 ∷ 9 ∷ 9 ∷ [];
  data_shards = 1;
  parity_shards = 1;
  chunk_size = 2;
  total_bytes = 3;
  chunks = chunk_of (7 ∷ 8 ∷ []) 2 ∷ chunk_of (9 ∷ []) 1 ∷ [];
}

abbrev no_blocks : Bytes → Option Bytes
no_blocks d = none

abbrev put_twice : Bytes → (Bytes → Option Bytes) → Bytes → Option Bytes
put_twice c blocks = put_block c c (put_block c c blocks)

abbrev blocks1 : Bytes → Option Bytes
blocks1 = put_twice (9 ∷ []) (put_twice (7 ∷ 8 ∷ []) no_blocks)

put-file : put outside mem_store cfg file false no_blocks ≡ (ok man, blocks1)
unfolding put put_chunks put_chunk put_shards then_put
put-file = refl

-- A corrupted shard is not believed.
corrupted : Bytes → Option Bytes
corrupted = corrupt_block (9 ∷ []) (1 ∷ []) blocks1

get-put_example : get outside mem_store corrupted man ≡ (
    if all_enough outside mirror 1 1 outside_laws mem_store corrupted man.chunks
    then ok file
    else err too_few_shards)
get-put_example =
    get-put outside mirror cfg refl outside_laws mem_store file no_blocks blocks1 corrupted man
      put-file

corrupted_refused : get outside mem_store corrupted man ≡ err too_few_shards
unfolding get get_chunks fetch_shards present corrupted bytes_eq
corrupted_refused = refl

get-put_mem_example :
    (m : Manifest) × (blocks : Bytes → Option Bytes) × (put outside mem_store cfg file false
        no_blocks
      ≡ (ok m, blocks))
    × (get outside mem_store blocks m ≡ ok file)
get-put_mem_example = get-put_mem outside mirror cfg refl outside_laws file no_blocks
