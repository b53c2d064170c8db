-- ===== src/DataPlane/Frame/Copy.antt =====
-- daemon/dataplane/frame.go: what `copyQuota` copies, and when it ends.
use cerberus.Base.{
  ℕ, zero, suc, ◌+◌, ◌-◌, ◌%◌, ◌≤◌, ◌<◌, ◌≡◌, refl, sym, ap, ◌∙◌, inl, inr, Bool, true, false, List,
  [], ◌∷◌, ◌++◌, Option, some, ltb, length, take, drop, if◌then◌else◌, u64_mod, arith, Bool-cases,
  length-append, take_nil, drop_nil, length-take-le, length-take, take-append_within,
  take-append_beyond,
}
use native.Mathlib.Nat.{add-zero, zero-add}
use mathlib.Core.List.{append-nil, append_assoc}
use cerberus.DataPlane.Stream.{Bytes, Source, put_back, read, write, joined, payload, read-payload}
use cerberus.DataPlane.Frame.{
  Copied, CopyEnd, copied, quota_exceeded, copy_read_failed, want, not_empty, overrun, copy_loop,
  copy_quota,
}

-- Rounds that a source can take.
unfoldable pub rounds : Source → ℕ
rounds s = length (payload s) + length s.chunks

-- How the copy of what is to come must end, with `room` bytes left.
abbrev pub verdict : ℕ → Source → CopyEnd
verdict room s =
    if ltb room (length (payload s))
    then quota_exceeded
    else if s.broken
    then copy_read_failed
    else copied

abbrev pub outcome : ℕ → ℕ → Bytes → Source → Option Copied
outcome total room old s = some (
  total + length (take room (payload s)),
  verdict room s,
  record { written = old ++ take room (payload s); faults = [] },
)

want_bounds :
    (limit total : ℕ)
    → total ≤ limit
    → limit + 1 < u64_mod
    → (0 < want limit total) × (want limit total ≤ limit - total + 1)
want_bounds limit total h r = ground arith

nothing_over : (n : ℕ) → ltb n 0 ≡ false
nothing_over n = ground arith

not_empty-length : (bs : Bytes) → not_empty bs ≡ true → 0 < length bs
not_empty-length [] h = cc
not_empty-length (b ∷ bs) h = omega arith

length-put_back : (c : Bytes) (cs : List Bytes) → length (put_back c cs) ≤ suc (length cs)
length-put_back [] cs = omega arith
length-put_back (b ∷ c) cs = omega arith

not_empty-take : (n x : ℕ) (c : Bytes) → 0 < n → not_empty (take n (x ∷ c)) ≡ true
not_empty-take zero x c h = absurd (omega arith)
not_empty-take (suc n) x c h = refl

fewer_rounds :
    (n x : ℕ) (c : Bytes) (cs : List Bytes) (b : Bool)
    → 0 < n
    → rounds (record { chunks = put_back (drop n (x ∷ c)) cs; broken = b })
      < rounds (record { chunks = (x ∷ c) ∷ cs; broken = b })
unfolding rounds read
fewer_rounds n x c cs b h =
    let bs : Bytes = take n (x ∷ c) in
    let rest : List Bytes = put_back (drop n (x ∷ c)) cs in
    let whole : length bs + length (joined rest) ≡ length (joined ((x ∷ c) ∷ cs)) =
      sym (length-append bs (joined rest))
      ∙ ap length (read-payload n (record { chunks = (x ∷ c) ∷ cs; broken = b })) in
    omega (
      arith,
      whole,
      not_empty-length bs (not_empty-take n x c h),
      length-put_back (drop n (x ∷ c)) cs,
    )

module _ (limit : ℕ) (fits : limit + 1 < u64_mod) where
  -- The round in which the quota is overrun.
  overrun-outcome :
      (total : ℕ) (bs rest : Bytes) (b : Bool) (cs : List Bytes) (old : Bytes)
      → total ≤ limit
      → limit < total + length bs
      → joined cs ≡ bs ++ rest
      → overrun limit total bs (record { written = old; faults = [] })
        ≡ outcome total (limit - total) old (record { chunks = cs; broken = b })
  unfolding write
  overrun-outcome total bs rest b cs old h over e =
      let room : ℕ = limit - total in
      let same : take room (joined cs) ≡ take room bs =
        ap (λ x. take room x) e ∙ take-append_within room bs rest (omega arith) in
      let long : ltb room (length (joined cs)) ≡ true =
        ground (arith, ap length e, length-append bs rest) in
      let len : length (take room bs) ≡ room = length-take room bs (omega arith) in
      elim (Bool-cases (ltb 0 room)) [
        | inl q ↦ rw (q, same, long, len) refl
        | inr q ↦
            let z : room ≡ 0 = ground arith in
            rw (q, same, long, z, append-nil old, add-zero total) refl
      ]

  -- The copy of what is left after some bytes is the copy of all.
  outcome_step :
      (total : ℕ) (bs : Bytes) (b : Bool) (cs cs' : List Bytes) (old : Bytes)
      → total + length bs ≤ limit
      → joined cs ≡ bs ++ joined cs'
      → outcome
          (total + length bs)
          (limit - (total + length bs))
          (old ++ bs)
          (record { chunks = cs'; broken = b })
        ≡ outcome total (limit - total) old (record { chunks = cs; broken = b })
  outcome_step total bs b cs cs' old h e =
      let k : ℕ = limit - (total + length bs) in
      let room : limit - total ≡ length bs + k = omega arith in
      let n : total + length (bs ++ take k (joined cs'))
          ≡ total + length bs + length (take k (joined cs')) =
        omega (arith, length-append bs (take k (joined cs'))) in
      let v : ltb (length bs + k) (length (bs ++ joined cs')) ≡ ltb k (length (joined cs')) =
        ground (arith, length-append bs (joined cs')) in
      rw
        (
          e,
          room,
          take-append_beyond k bs (joined cs'),
          n,
          v,
          append_assoc old bs (take k (joined cs')),
        )
        refl

  abbrev Outcome : ℕ → ℕ → Bytes → List Bytes → Bool → Type 0
  Outcome fuel total old cs b =
      copy_loop fuel limit total (record { written = old; faults = [] })
        (record { chunks = cs; broken = b })
      ≡ outcome total (limit - total) old (record { chunks = cs; broken = b })

  -- The source's next chunk is empty, or it has ended.
  idle_round :
      (fuel total : ℕ) (old : Bytes) (cs : List Bytes) (b : Bool)
      → Outcome fuel total old cs b
      → Outcome (suc fuel) total old ([] ∷ cs) b
  unfolding copy_loop read joined
  idle_round fuel total old cs b h =
      rw (take_nil {A = ℕ} (want limit total), drop_nil {A = ℕ} (want limit total)) h

  -- A chunk's first bytes are copied, and the rest of it goes on.
  full_round :
      (fuel total : ℕ) (old : Bytes) (x : ℕ) (c : Bytes) (cs : List Bytes) (b : Bool)
      → total ≤ limit
      → (total + length (take (want limit total) (x ∷ c)) ≤ limit
          → Outcome fuel
              (total + length (take (want limit total) (x ∷ c)))
              (old ++ take (want limit total) (x ∷ c))
              (put_back (drop (want limit total) (x ∷ c)) cs)
              b)
      → Outcome (suc fuel) total old ((x ∷ c) ∷ cs) b
  unfolding copy_loop read joined write
  full_round fuel total old x c cs b h next =
      let n : ℕ = want limit total in
      let bs : Bytes = take n (x ∷ c) in
      let bounds = want_bounds limit total h fits in
      let some_bytes : not_empty bs ≡ true = not_empty-take n x c bounds.0 in
      let small : (total + length bs) % u64_mod ≡ total + length bs =
        omega (arith, length-take-le n (x ∷ c), bounds.1) in
      let whole : (x ∷ c) ++ joined cs ≡ bs ++ joined (put_back (drop n (x ∷ c)) cs) =
        sym (read-payload n (record { chunks = (x ∷ c) ∷ cs; broken = b })) in
      elim (Bool-cases (ltb limit (total + length bs))) [
        | inl q ↦
            rw (some_bytes, small, q)
              (overrun-outcome total bs _ b ((x ∷ c) ∷ cs) old h (ground arith) whole)
        | inr q ↦
            let inside : total + length bs ≤ limit = ground arith in
            rw (some_bytes, small, q)
              (next inside
                ∙ outcome_step total bs b ((x ∷ c) ∷ cs) (put_back (drop n (x ∷ c)) cs) old inside
                    whole)
      ]

  ended : (fuel total : ℕ) (old : Bytes) (b : Bool) → Outcome (suc fuel) total old [] b
  unfolding copy_loop read joined
  ended fuel total old true =
      rw
        (
          take_nil {A = ℕ} (limit - total),
          append-nil old,
          add-zero total,
          nothing_over (limit - total),
        )
        refl
  ended fuel total old false =
      rw
        (
          take_nil {A = ℕ} (limit - total),
          append-nil old,
          add-zero total,
          nothing_over (limit - total),
        )
        refl

  loop_outcome :
      (fuel total : ℕ) (old : Bytes) (cs : List Bytes) (b : Bool)
      → total ≤ limit
      → rounds (record { chunks = cs; broken = b }) < fuel
      → Outcome fuel total old cs b
  unfolding rounds joined
  loop_outcome zero total old cs b h f = absurd (omega arith)
  loop_outcome (suc fuel) total old [] false h f = ended fuel total old false
  loop_outcome (suc fuel) total old [] true h f = ended fuel total old true
  loop_outcome (suc fuel) total old ([] ∷ cs) b h f =
      idle_round fuel total old cs b (loop_outcome fuel total old cs b h (omega arith))
  loop_outcome (suc fuel) total old ((x ∷ c) ∷ cs) b h f =
      full_round fuel total old x c cs b h (λ inside. loop_outcome fuel _ _ _ b inside (
        omega (arith, fewer_rounds (want limit total) x c cs b (want_bounds limit total h fits).0)))

-- Where the quota is below the last uint64 and no write fails, the copy ends within as many rounds
-- as the stream has bytes and chunks, however the stream is cut into chunks. It hands on exactly the
-- first bytes of the stream within the quota, says how many, and reports an overrun if there is more.
pub copy_quota_exact :
    (fuel limit : ℕ) (src : Source) (old : Bytes)
    → limit + 1 < u64_mod
    → rounds src < fuel
    → copy_quota fuel (record { written = old; faults = [] }) src limit
      ≡ some (
        length (take limit (payload src)),
        verdict limit src,
        record { written = old ++ take limit (payload src); faults = [] },
      )
copy_quota_exact fuel limit src old h f =
    loop_outcome limit h fuel 0 old src.chunks src.broken (omega arith) f
    ∙ ap (λ k. outcome 0 k old src) (omega arith)
    ∙ ap
        (λ n.
          some (
            n,
            verdict limit src,
            record { written = old ++ take limit (payload src); faults = [] },
          ))
        (zero-add (length (take limit (payload src))))
