-- ===== src/Dfs/Written.antt =====
-- daemon/dfs/dfs.go: what the manifest that `Put` returns holds.
use cerberus.Base.{
  ℕ, zero, suc, ◌≤◌, ◌<◌, ◌≡◌, refl, sym, ap, ◌∙◌, subst, inl, inr, Bool, false, List, [], ◌∷◌, map,
  ok, err, ge→ltb, lt→ltb, lt_or_ge, length, take, drop, take-drop, length-take, length-drop, All,
  All-map, arith,
}
use mathlib.Core.List.{append-nil}
use cerberus.Dfs.{
  Bytes, Encoder, Outside, ShardStore, ChunkManifest, Put, then_put, placed, put_shards,
  put_encoded, put_split, put_chunk, put_last, put_chunks,
}
use cerberus.Dfs.Shards.{Coded, Names, Holds, OutsideLaws}

-- How a step ends: with a value and a state of which something is known, or with an error, for which `E` says
-- whether that can be.
unfoldable pub Ends :
    (o : Outside) (store : ShardStore) {A : Type 0}
    → Type 0
    → (A → store.State → Type 0)
    → Put o store A
    → Type 0
Ends o store E P (ok a, s) = P a s
Ends o store E P (err e, s) = E

-- A store of which it is known that a shard that was put is there, by some predicate on its states.
pub record Storing (o : Outside) (store : ShardStore) (E : Type 0) : Type 1 where
  pub Has : store.State → Bytes → Type 0
  pub stored :
      (sh : Bytes) (s : store.State)
      → Ends o store E
          (λ p s'. Has s' sh × ((b : Bytes) → Has s b → Has s' b))
          (placed o store (store.put_shard (o.shard_cid sh) sh s))

module _ (o : Outside) (store : ShardStore) (E : Type 0) (storing : Storing o store E) where
  pub then_put-Ends :
      {A B : Type 0} (P : A → store.State → Type 0) (Q : B → store.State → Type 0)
      (p : Put o store A) (f : A → store.State → Put o store B)
      → Ends o store E P p
      → ((a : A) (s : store.State) → P a s → Ends o store E Q (f a s))
      → Ends o store E Q (then_put o store p f)
  unfolding then_put Ends
  then_put-Ends P Q (ok a, s) f h g = g a s h
  then_put-Ends P Q (err e, s) f h g = h

  -- A later state has what an earlier one has.
  unfoldable pub Later : store.State → store.State → Type 0
  Later s s' = (b : Bytes) → storing.Has s b → storing.Has s' b

  put_shards-Ends :
      (shards : List Bytes) (n : ℕ) (s : store.State)
      → Ends o store E
          (λ cm s'.
            (cm.shard_cids ≡ map o.shard_cid shards)
            × (cm.chunk_bytes ≡ n)
            × All (storing.Has s') shards
            × Later s s')
          (put_shards o store shards n s)
  unfolding put_shards Ends Later
  put_shards-Ends [] n s = (refl, refl, tt, λ b h. h)
  put_shards-Ends (sh ∷ shards) n s = then_put-Ends _ _ _ _ (storing.stored sh s) (λ p s1 h1.
      then_put-Ends _ _ _ _ (put_shards-Ends shards n s1) (λ cm s2 h2. (
        ap (λ cs. o.shard_cid sh ∷ cs) h2.0,
        h2.1,
        (h2.3 sh h1.0, h2.2),
        λ b h. h2.3 b (h1.1 b h),
      )))

module _ (o : Outside) (enc : Encoder) (k m : ℕ) (laws : OutsideLaws o enc k m) (store : ShardStore)
    (E : Type 0) (storing : Storing o store E) where
  put_chunk-Ends :
      (chunk : Bytes) (s : store.State)
      → 0 < length chunk
      → Ends o store E
          (λ cm s'. Names o enc k m (storing.Has s') cm chunk × Later o store E storing s s')
          (put_chunk o store enc chunk s)
  unfolding put_chunk Ends
  put_chunk-Ends chunk s pos =
      subst (Good s)
        (sym (
          ap (λ r. put_split o store enc r (length chunk) s) c.splits
          ∙ ap (λ r. put_encoded o store r (length chunk) s) c.encodes))
        (named (put_shards o store c.shards (length chunk) s)
          (put_shards-Ends o store E storing c.shards (length chunk) s))
    where
      c : Coded enc k m chunk
      c = laws.coded chunk pos

      Good : store.State → Put o store ChunkManifest → Type 0
      Good s p =
          Ends o store E
            (λ cm s'. Names o enc k m (storing.Has s') cm chunk × Later o store E storing s s') p

      named :
          (p : Put o store ChunkManifest)
          → Ends o store E
              (λ cm s'.
                (cm.shard_cids ≡ map o.shard_cid c.shards)
                × (cm.chunk_bytes ≡ length chunk)
                × All (storing.Has s') c.shards
                × Later o store E storing s s')
              p
          → Good s p
      named (ok cm, s') h = (record { coding = c; named = h.0; sized = h.1; held = h.2 }, h.3)
      named (err e, s') h = h

  Names-map :
      {Has Has' : Bytes → Type 0} (cm : ChunkManifest) (chunk : Bytes)
      → ((b : Bytes) → Has b → Has' b)
      → Names o enc k m Has cm chunk
      → Names o enc k m Has' cm chunk
  Names-map cm chunk f h = record {
    coding = h.coding;
    named = h.named;
    sized = h.sized;
    held = All-map h.coding.shards f h.held;
  }

  unfoldable pub Written : List ChunkManifest → Bytes → store.State → store.State → Type 0
  Written cms bytes s s' = Holds o enc k m (storing.Has s') cms bytes × Later o store E storing s s'

  put_last-Ends :
      (bytes : Bytes) (s : store.State)
      → Ends o store E (λ cms s'. Written cms bytes s s') (put_last o store enc false bytes s)
  unfolding Ends Written Holds Later
  put_last-Ends [] s = (refl, λ b h. h)
  put_last-Ends (b ∷ bs) s =
      then_put-Ends o store E storing _ _ _ _ (put_chunk-Ends (b ∷ bs) s (ground arith))
        (λ cm s1 h1.
          then_put-Ends o store E storing (λ cms s2. Written cms [] s1 s2) _ _ _ (refl, λ b h. h)
            (λ cms s2 h2. (
              (b ∷ bs, [], sym (append-nil (b ∷ bs)), Names-map cm (b ∷ bs) h2.1 h1.0, h2.0),
              λ b h. h2.1 b (h1.1 b h),
            )))

  -- The rounds of the loop: a full chunk, and one that is not.
  pub put_chunks_full :
      (fuel size : ℕ) (bytes : Bytes) (broken : Bool) (s : store.State)
      → size ≤ length bytes
      → put_chunks o store (suc fuel) enc size broken bytes s
        ≡ then_put o store (put_chunk o store enc (take size bytes) s) (λ cm s'.
          then_put o store
            (put_chunks o store fuel enc size broken (drop size bytes) s')
            (λ cms s''. (ok (cm ∷ cms), s'')))
  unfolding put_chunks
  put_chunks_full fuel size bytes broken s h = rw (ge→ltb (length bytes) size h) refl

  pub put_chunks_short :
      (fuel size : ℕ) (bytes : Bytes) (broken : Bool) (s : store.State)
      → length bytes < size
      → put_chunks o store fuel enc size broken bytes s ≡ put_last o store enc broken bytes s
  unfolding put_chunks
  put_chunks_short zero size bytes broken s h = refl
  put_chunks_short (suc fuel) size bytes broken s h = rw (lt→ltb (length bytes) size h) refl

  full_round :
      (fuel size : ℕ) (bytes : Bytes) (s : store.State)
      → 0 < length (take size bytes)
      → ((s1 : store.State)
          → Ends o store E
              (λ cms s'. Written cms (drop size bytes) s1 s')
              (put_chunks o store fuel enc size false (drop size bytes) s1))
      → Ends o store E
          (λ cms s'. Written cms bytes s s')
          (then_put o store (put_chunk o store enc (take size bytes) s) (λ cm s'.
            then_put o store
              (put_chunks o store fuel enc size false (drop size bytes) s')
              (λ cms s''. (ok (cm ∷ cms), s''))))
  unfolding Ends Written Holds Later
  full_round fuel size bytes s pos rest =
      then_put-Ends o store E storing _ _ _ _ (put_chunk-Ends (take size bytes) s pos) (λ cm s1 h1.
        then_put-Ends o store E storing _ _ _ _ (rest s1) (λ cms s2 h2. (
          (
            take size bytes,
            drop size bytes,
            sym (take-drop size bytes),
            Names-map cm (take size bytes) h2.1 h1.0,
            h2.0,
          ),
          λ b h. h2.1 b (h1.1 b h),
        )))

  -- One round for each byte is enough for the loop to come to the end of the bytes.
  pub put_chunks-Ends :
      (fuel size : ℕ) (bytes : Bytes) (s : store.State)
      → 0 < size
      → length bytes ≤ fuel
      → Ends o store E
          (λ cms s'. Written cms bytes s s')
          (put_chunks o store fuel enc size false bytes s)
  put_chunks-Ends zero size bytes s pos few =
      rw (put_chunks_short zero size bytes false s (omega arith)) (put_last-Ends bytes s)
  put_chunks-Ends (suc fuel) size bytes s pos few = elim (lt_or_ge (length bytes) size) [
    | inl q ↦ rw (put_chunks_short (suc fuel) size bytes false s q) (put_last-Ends bytes s)
    | inr q ↦ rw (put_chunks_full fuel size bytes false s q) (
        full_round fuel size bytes s (omega (arith, length-take size bytes q)) (λ s1.
          put_chunks-Ends fuel size (drop size bytes) s1 pos
            (omega (arith, length-drop size bytes))))
  ]
