-- ===== src/Auth/Envelope/Reads.antt =====
-- daemon/auth/signedcap.go: each reader of the decoder against the bytes that the encoder appends.
use cerberus.Base.{
  take-length, drop-length, length-append, ℕ, ◌+◌, ◌*◌, ◌/◌, ◌%◌, ◌^◌, ◌<◌, false, ◌≡◌, refl, ap,
  ◌∙◌, List, [], ◌∷◌, ◌++◌, Option, none, some, ltb, length, arith, All, subst,
}
use mathlib.Core.List.{append_assoc}
use cerberus.Base.Int.{ℤ, pos, negsuc}
use cerberus.Auth.Grant.{Bytes, Quota, Caveat}
use cerberus.Auth.Envelope.{
  u32_bytes, u64_bytes, u64_of, sized, quota_bytes, put_each, caveat_bytes, parent_bytes, counted,
}
use cerberus.Auth.Envelope.Decoder.{
  Decoder, D, ◌>>=◌, pure, need, big_endian, u8, u32, u64, bytes, int64_of, fixed, quota, repeat,
  caveat, parent_id,
}

abbrev pub on : Bytes → Decoder
on bs = record { rest = bs; failed = false }

-- The reader takes these bytes from the front and yields this value.
pub record Reads {A : Type 0} (m : D A) (bs : Bytes) (a : A) : Type 0 where
  pub reads : (r : Bytes) → m (on (bs ++ r)) ≡ (a, on r)

pub Reads-bind :
    {A B : Type 0} {m : D A} {bs cs : Bytes} {a : A} {b : B} (f : A → D B)
    → Reads m bs a
    → Reads (f a) cs b
    → Reads (m >>= f) (bs ++ cs) b
unfolding ◌>>=◌
Reads-bind {bs} {cs} f p q = record {
  reads = λ r. rw (append_assoc bs cs r, p.reads (cs ++ r)) (q.reads r);
}

pub Reads-pure : {A : Type 0} (a : A) → Reads (pure a) [] a
unfolding pure
Reads-pure a = record { reads = λ r. refl }

-- A reader with only a result after it.
pub Reads-last :
    {A B : Type 0} {m : D A} {bs : Bytes} {a : A} {b : B} (f : A → D B)
    → Reads m bs a
    → Reads (f a) [] b
    → Reads (m >>= f) bs b
unfolding ◌>>=◌
Reads-last {bs} f p q = record { reads = λ r. rw (p.reads r) (q.reads r) }

unfoldable pub FitsQuota : Option Quota → Type 0
FitsQuota none = Unit
FitsQuota (some q) = (q.bytes < 2 ^ 64) × (q.flops < 2 ^ 64) × (q.secs < 2 ^ 64)

unfoldable pub FitsInt64 : ℤ → Type 0
FitsInt64 (pos n) = n < 2 ^ 63
FitsInt64 (negsuc n) = n < 2 ^ 63

unfoldable pub FitsParent : Option Bytes → Type 0
FitsParent none = Unit
FitsParent (some p) = length p ≡ 16

enough : (xs ys : Bytes) → ltb (length (xs ++ ys)) (length xs) ≡ false
enough xs ys = let e = length-append xs ys in ground arith

need-Reads :
    {A : Type 0} (fallback : A) (read : Bytes → A) (bs : Bytes)
    → Reads (need (length bs) fallback read) bs (read bs)
need-Reads fallback read bs = record {
  reads = λ r. rw (enough bs r, take-length bs r, drop-length bs r) refl;
}

pub u8-Reads : (b : ℕ) → Reads u8 (b ∷ []) b
unfolding u8 big_endian
u8-Reads b =
    let e : big_endian 0 (b ∷ []) ≡ b = omega arith in
    subst (Reads u8 (b ∷ [])) e (need-Reads 0 (big_endian 0) (b ∷ []))

big_endian-u32_bytes :
    (acc v : ℕ) (bs : Bytes)
    → big_endian acc (u32_bytes v ++ bs) ≡ big_endian (acc * 2 ^ 32 + v % 2 ^ 32) bs
unfolding big_endian
big_endian-u32_bytes acc v bs = ap (λ n. big_endian n bs) (omega arith)

pub u32_of : (v : ℕ) → v < 2 ^ 32 → big_endian 0 (u32_bytes v) ≡ v
unfolding big_endian
u32_of v h = big_endian-u32_bytes 0 v [] ∙ omega arith

pub u32-Reads : (v : ℕ) → v < 2 ^ 32 → Reads u32 (u32_bytes v) v
unfolding u32
u32-Reads v h =
    subst (Reads u32 (u32_bytes v)) (u32_of v h) (need-Reads 0 (big_endian 0) (u32_bytes v))

u64_of_halves : (v : ℕ) → v < 2 ^ 64 → big_endian 0 (u64_bytes v) ≡ v
unfolding big_endian
u64_of_halves v h =
    big_endian-u32_bytes 0 (v / 2 ^ 32) (u32_bytes v)
    ∙ big_endian-u32_bytes (0 * 2 ^ 32 + v / 2 ^ 32 % 2 ^ 32) v []
    ∙ omega arith

pub u64-Reads : (v : ℕ) → v < 2 ^ 64 → Reads u64 (u64_bytes v) v
unfolding u64
u64-Reads v h =
    subst (Reads u64 (u64_bytes v)) (u64_of_halves v h) (need-Reads 0 (big_endian 0) (u64_bytes v))

pub bytes-Reads : (v : Bytes) → length v < 2 ^ 32 → Reads bytes (sized v) v
unfolding bytes
bytes-Reads v h = Reads-bind _ (u32-Reads (length v) h) (need-Reads [] (λ bs. bs) v)

pub fixed-Reads :
    (size : ℕ) (v : Bytes) → length v ≡ size → size < 2 ^ 32 → Reads (fixed size) (sized v) v
unfolding fixed
fixed-Reads size v e h =
    Reads-last _ (bytes-Reads v (rw e h))
      (subst (λ c. Reads (pure c) [] v) (ground arith) (Reads-pure v))

pub quota-Reads : (q : Option Quota) → FitsQuota q → Reads quota (quota_bytes q) q
unfolding quota FitsQuota
quota-Reads none h = Reads-last _ (u8-Reads 0) (Reads-pure none)
quota-Reads (some q) h = Reads-bind _ (u8-Reads 1) (
    Reads-bind _ (u64-Reads q.bytes h.0) (
      Reads-bind _ (u64-Reads q.flops h.1)
        (Reads-last _ (u64-Reads q.secs h.2) (Reads-pure (some q)))))

pub parent_id-Reads : (p : Option Bytes) → FitsParent p → Reads parent_id (parent_bytes p) p
unfolding parent_id FitsParent
parent_id-Reads none h = Reads-last _ (u8-Reads 0) (Reads-pure none)
parent_id-Reads (some p) h =
    Reads-bind _ (u8-Reads 1)
      (Reads-last _ (fixed-Reads 16 p h (omega arith)) (Reads-pure (some p)))

unfoldable pub FitsCaveat : Caveat → Type 0
FitsCaveat c = (length c.op < 2 ^ 32) × (length c.val < 2 ^ 32)

pub caveat-Reads : (c : Caveat) → FitsCaveat c → Reads caveat (caveat_bytes c) c
unfolding FitsCaveat
caveat-Reads c h =
    Reads-bind _ (bytes-Reads c.op h.0) (Reads-last _ (bytes-Reads c.val h.1) (Reads-pure c))

repeat_next :
    {A : Type 0} (item : D A) (put : A → Bytes) (x : A) (xs : List A)
    → Reads item (put x) x
    → Reads (repeat item (length xs)) (put_each put xs) xs
    → Reads
        (item >>= (λ y. repeat item (length xs) >>= (λ ys. pure (y ∷ ys))))
        (put x ++ put_each put xs)
        (x ∷ xs)
repeat_next item put x xs h rest = Reads-bind _ h (Reads-last _ rest (Reads-pure (x ∷ xs)))

repeat-Reads :
    {A : Type 0} (item : D A) (put : A → Bytes) (xs : List A)
    → All (λ x. Reads item (put x) x) xs
    → Reads (repeat item (length xs)) (put_each put xs) xs
unfolding repeat put_each
repeat-Reads item put [] h = record { reads = λ r. refl }
repeat-Reads item put (x ∷ xs) h =
    let rest = repeat-Reads item put xs h.1 in
    record { reads = λ r. (repeat_next item put x xs h.0 rest).reads r }

All-Reads :
    {A : Type 0} {P : A → Type 0} (item : D A) (put : A → Bytes) (xs : List A)
    → ((x : A) → P x → Reads item (put x) x)
    → All P xs
    → All (λ x. Reads item (put x) x) xs
All-Reads item put [] f h = tt
All-Reads item put (x ∷ xs) f h = (f x h.0, All-Reads item put xs f h.1)

pub counted-Reads :
    {A : Type 0} {P : A → Type 0} (item : D A) (put : A → Bytes) (xs : List A)
    → length xs < 2 ^ 32
    → ((x : A) → P x → Reads item (put x) x)
    → All P xs
    → Reads (u32 >>= repeat item) (counted put xs) xs
counted-Reads item put xs n f h =
    Reads-bind _ (u32-Reads (length xs) n) (repeat-Reads item put xs (All-Reads item put xs f h))

pub int64_of-u64_of : (z : ℤ) → FitsInt64 z → int64_of (u64_of z) ≡ z
unfolding FitsInt64
int64_of-u64_of (pos n) h = ground arith
int64_of-u64_of (negsuc n) h = ground arith

pub u64_of-lt : (z : ℤ) → FitsInt64 z → u64_of z < 2 ^ 64
unfolding FitsInt64
u64_of-lt (pos n) h = omega arith
u64_of-lt (negsuc n) h = omega arith
