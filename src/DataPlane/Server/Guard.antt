-- ===== src/DataPlane/Server/Guard.antt =====
-- daemon/dataplane/server.go: what a sink gets through a quotaReader.
use cerberus.Base.{
  ℕ, ◌+◌, ◌-◌, ◌%◌, ◌^◌, ◌≤◌, ◌<◌, ◌≡◌, refl, sym, ap, ◌∙◌, subst, inl, inr, Bool, true, false,
  List, [], ◌∷◌, ◌++◌, ltb, leb, ◌==◌, length, take, drop, if◌then◌else◌, u64_mod, arith,
  Bool-cases, All, length-append, length-take-le,
}
use mathlib.Core.Bool.{true≢false}
use mathlib.Core.List.{append_assoc}
use cerberus.DataPlane.Stream.{
  Bytes, Source, ReadEnd, more, eof, read_error, put_back, read, joined, payload, read-payload,
}
use cerberus.DataPlane.Server.{
  QuotaReader, min, quota_read, consume_next, consume, limit_count, guarded,
}

-- A stream's read blocks until there is a byte: no chunk is empty.
unfoldable pub FullChunks : List Bytes → Type 0
FullChunks cs = All (λ c. 0 < length c) cs

put_back-FullChunks : (c : Bytes) (cs : List Bytes) → FullChunks cs → FullChunks (put_back c cs)
unfolding FullChunks
put_back-FullChunks [] cs h = h
put_back-FullChunks (b ∷ c) cs h = (omega arith, h)

-- The reader of a transfer that got `n` bytes so far.
abbrev pub guard_at : ℕ → ℕ → List Bytes → Bool → QuotaReader
guard_at limit n cs b = record {
  src = record { chunks = cs; broken = b };
  left = limit + 1 - n;
  limit = limit;
  read_count = n;
  overran = false;
}

-- What a sink got: a beginning of the stream within the quota, and all of it at a clean end.
pub record Bounded (q : QuotaReader) (got : Bytes) (end : ReadEnd) : Type 0 where
  pub rest : Bytes
  pub prefix : got ++ rest ≡ payload q.src
  pub bounded : q.read_count + length got ≤ q.limit
  pub complete : end ≡ eof → got ≡ payload q.src

abbrev pub BoundedRead : QuotaReader → Bytes × ReadEnd × QuotaReader → Type 0
BoundedRead q r = Bounded q r.0 r.1

abbrev is_more : ReadEnd → Bool
is_more more = true
is_more _ = false

abbrev Reading : Type 0
Reading = Bytes × ReadEnd × QuotaReader

stopped :
    (r : Reading) (again : QuotaReader → Reading) (end : ReadEnd)
    → r.1 ≡ end
    → is_more end ≡ false
    → ((consume_next r again).0 ≡ r.0) × ((consume_next r again).1 ≡ end)
stopped (bs, more, q) again end e h = absurd (true≢false (ap is_more e ∙ h))
stopped (bs, eof, q) again end e h = (refl, e)
stopped (bs, read_error, q) again end e h = (refl, e)

went_on :
    (r : Reading) (again : QuotaReader → Reading)
    → r.1 ≡ more
    → ((consume_next r again).0 ≡ r.0 ++ (again r.2).0) × ((consume_next r again).1 ≡ (again r.2).1)
went_on (bs, more, q) again e = (refl, refl)
went_on (bs, eof, q) again e = absurd (true≢false (sym (ap is_more e)))
went_on (bs, read_error, q) again e = absurd (true≢false (sym (ap is_more e)))

abbrev end_if_empty : List Bytes → ReadEnd
end_if_empty [] = eof
end_if_empty (c ∷ cs) = read_error

end-not_more : (cs : List Bytes) → is_more (end_if_empty cs) ≡ false
end-not_more [] = refl
end-not_more (c ∷ cs) = refl

joined-end : (cs : List Bytes) → end_if_empty cs ≡ eof → [] ≡ joined cs
unfolding joined
joined-end [] e = refl
joined-end (c ∷ cs) e = cc

read-not_more : (b : Bool) → is_more (if b then read_error else eof) ≡ false
read-not_more true = refl
read-not_more false = refl

same_read :
    {q : QuotaReader} {got got' : Bytes} {end end' : ReadEnd}
    → Bounded q got end
    → got' ≡ got
    → end' ≡ end
    → Bounded q got' end'
same_read {q} {got} {got'} {end} x g e =
    subst (λ k. Bounded q got' k) (sym e) (subst (λ k. Bounded q k end) (sym g) x)

module _ (limit : ℕ) (b : Bool) where
  nothing-Bounded :
      (n : ℕ) (cs : List Bytes) (end : ReadEnd)
      → n ≤ limit
      → (end ≡ eof → [] ≡ joined cs)
      → Bounded (guard_at limit n cs b) [] end
  nothing-Bounded n cs end h e = record {
    rest = joined cs;
    prefix = refl;
    bounded = omega arith;
    complete = e;
  }

  -- At the ceiling a byte more is an overrun, and none is the end.
  ceiling_read :
      (size : ℕ) (cs : List Bytes)
      → FullChunks cs
      → ((quota_read size (guard_at limit limit cs b)).0 ≡ [])
        × ((quota_read size (guard_at limit limit cs b)).1 ≡ end_if_empty cs)
  unfolding quota_read read FullChunks
  ceiling_read size [] f =
      let at_limit : leb limit limit ≡ true = ground arith in
      let one_left : limit + 1 - limit ≡ 1 = omega arith in rw (at_limit, one_left) (refl, refl)
  ceiling_read size ([] ∷ cs) f = absurd (omega (arith, f.0))
  ceiling_read size ((x ∷ c) ∷ cs) f =
      let at_limit : leb limit limit ≡ true = ground arith in
      let one_left : limit + 1 - limit ≡ 1 = omega arith in rw (at_limit, one_left) (refl, refl)

  room_read :
      (size n : ℕ) (cs : List Bytes)
      → n < limit
      → limit + 1 < 2 ^ 63
      → ((quota_read size (guard_at limit n cs b)).0
          ≡ (read (min size (limit - n)) (record { chunks = cs; broken = b })).0)
        × ((quota_read size (guard_at limit n cs b)).1
            ≡ (read (min size (limit - n)) (record { chunks = cs; broken = b })).1)
        × ((quota_read size (guard_at limit n cs b)).2
            ≡ guard_at limit
                (n + length (read (min size (limit - n)) (record { chunks = cs; broken = b })).0)
                (read (min size (limit - n)) (record { chunks = cs; broken = b })).2.chunks
                b)
  unfolding quota_read read
  room_read size n [] h small =
      let room : leb limit n ≡ false = ground arith in
      let some_left : limit + 1 - n == 0 ≡ false = ground arith in
      let same : (n + 0) % u64_mod ≡ n + 0 = omega arith in
      let gone : limit + 1 - n - 0 ≡ limit + 1 - (n + 0) = omega arith in
      rw (room, some_left) (refl, refl, rw (same, gone) refl)
  room_read size n (c ∷ cs) h small =
      let m : ℕ = min size (limit - n) in
      let room : leb limit n ≡ false = ground arith in
      let some_left : limit + 1 - n == 0 ≡ false = ground arith in
      let fits : ltb (limit + 1 - n) m ≡ false = ground arith in
      let short : m ≤ limit - n = ground arith in
      let len : length (take m c) ≤ m = length-take-le m c in
      let same : (n + length (take m c)) % u64_mod ≡ n + length (take m c) = omega arith in
      let gone : limit + 1 - n - length (take m c) ≡ limit + 1 - (n + length (take m c)) =
        omega arith in
      rw (room, some_left, fits) (refl, refl, rw (same, gone) refl)

  first_chunk :
      (m n : ℕ) (c : Bytes) (cs : List Bytes) (got : Bytes) (end : ReadEnd)
      → m ≤ limit - n
      → n ≤ limit
      → Bounded (guard_at limit (n + length (take m c)) (put_back (drop m c) cs) b) got end
      → Bounded (guard_at limit n (c ∷ cs) b) (take m c ++ got) end
  first_chunk m n c cs got end h within x =
      let whole : take m c ++ joined (put_back (drop m c) cs) ≡ joined (c ∷ cs) =
        unfold read in read-payload m (record { chunks = c ∷ cs; broken = b }) in
      record {
        rest = x.rest;
        prefix = append_assoc (take m c) got x.rest ∙ ap (λ l. take m c ++ l) x.prefix ∙ whole;
        bounded = omega (arith, x.bounded, length-append (take m c) got);
        complete = λ e. ap (λ l. take m c ++ l) (x.complete e) ∙ whole;
      }

  ceiling_bounded :
      (size : ℕ) (ns : List ℕ) (cs : List Bytes)
      → FullChunks cs
      → BoundedRead (guard_at limit limit cs b) (consume (size ∷ ns) (guard_at limit limit cs b))
  unfolding consume
  ceiling_bounded size ns cs f =
      let (none_got, end) = ceiling_read size cs f in
      let (got, at_end) =
        stopped (quota_read size (guard_at limit limit cs b)) (λ q. consume ns q) (end_if_empty cs)
          end (end-not_more cs) in
      same_read (nothing-Bounded limit cs (end_if_empty cs) (omega arith) (joined-end cs))
        (got ∙ none_got) at_end

  full_or_not :
      (size : ℕ) (ns : List ℕ) (n : ℕ) (cs : List Bytes)
      → limit ≡ n
      → FullChunks cs
      → BoundedRead (guard_at limit n cs b) (consume (size ∷ ns) (guard_at limit n cs b))
  full_or_not size ns n cs e f =
      subst (λ k. BoundedRead (guard_at limit k cs b) (consume (size ∷ ns) (guard_at limit k cs b)))
        e (ceiling_bounded size ns cs f)

  pub consume_bounded :
      (ns : List ℕ) (n : ℕ) (cs : List Bytes)
      → n ≤ limit
      → limit + 1 < 2 ^ 63
      → FullChunks cs
      → BoundedRead (guard_at limit n cs b) (consume ns (guard_at limit n cs b))
  unfolding consume FullChunks
  consume_bounded [] n cs h small f = nothing-Bounded n cs more h (λ e. cc)
  consume_bounded (size ∷ ns) n [] h small f = elim (Bool-cases (ltb n limit)) [
    | inl q ↦
        let (none_got, end, _) = room_read size n [] (ground arith) small in
        let (got, at_end) =
          stopped (quota_read size (guard_at limit n [] b)) (λ q'. consume ns q')
            (if b then read_error else eof) (unfold read in end) (read-not_more b) in
        same_read
          (nothing-Bounded n [] (if b then read_error else eof) h (λ e. unfold joined in refl))
          (got ∙ (unfold read in none_got)) at_end
    | inr q ↦ full_or_not size ns n [] (ground arith) f
  ]
  consume_bounded (size ∷ ns) n (c ∷ cs) h small f = elim (Bool-cases (ltb n limit)) [
    | inl q ↦
        let m : ℕ = min size (limit - n) in
        let short : m ≤ limit - n = ground arith in
        let len : n + length (take m c) ≤ limit = omega (arith, length-take-le m c) in
        let (some_got, end, after) = room_read size n (c ∷ cs) (ground arith) small in
        let (got, at_end) =
          went_on (quota_read size (guard_at limit n (c ∷ cs) b)) (λ q'. consume ns q')
            (unfold read in end) in
        let ih =
          consume_bounded ns (n + length (take m c)) (put_back (drop m c) cs) len small
            (put_back-FullChunks (drop m c) cs f.1) in
        let after' : (quota_read size (guard_at limit n (c ∷ cs) b)).2
            ≡ guard_at limit (n + length (take m c)) (put_back (drop m c) cs) b =
          unfold read in after in
        let front : (quota_read size (guard_at limit n (c ∷ cs) b)).0 ≡ take m c =
          unfold read in some_got in
        same_read (first_chunk m n c cs _ _ short h ih)
          (got
            ∙ ap (λ l. l ++ (consume ns (quota_read size (guard_at limit n (c ∷ cs) b)).2).0) front
            ∙ ap (λ k. take m c ++ (consume ns k).0) after')
          (at_end ∙ ap (λ k. (consume ns k).1) after')
    | inr q ↦ full_or_not size ns n (c ∷ cs) (ground arith) f
  ]

-- A sink that reads through the guard of a grant gets a beginning of the stream within the quota,
-- whatever the sizes of its reads, and at a clean end it got the whole stream. The quota is below
-- 2^63 - 1, as the LimitReader's count wants it.
pub consume-Bounded :
    (ns : List ℕ) (quota : ℕ) (src : Source)
    → quota + 1 < 2 ^ 63
    → FullChunks src.chunks
    → BoundedRead (guarded quota src) (consume ns (guarded quota src))
consume-Bounded ns quota src small f =
    subst (λ q. BoundedRead q (consume ns q)) same
      (consume_bounded quota src.broken ns 0 src.chunks (omega arith) small f)
  where
    same : guard_at quota 0 src.chunks src.broken ≡ guarded quota src
    same = let e : limit_count quota ≡ quota + 1 - 0 = ground arith in rw e refl
