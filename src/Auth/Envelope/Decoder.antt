-- ===== src/Auth/Envelope/Decoder.antt =====
-- daemon/auth/signedcap.go: the decoder, a cursor that fails for good at the first overrun. The
-- buffer and the offset are the rest of the bytes.
use cerberus.Base.{
  ℕ, zero, suc, ◌+◌, ◌-◌, ◌*◌, ◌^◌, Bool, true, false, not, ◌||◌, List, [], ◌∷◌, Option, none, some,
  Result, ok, err, ltb, ◌==◌, length, take, drop, if◌then◌else◌,
}
use cerberus.Base.Int.{ℤ, pos, negsuc}
use cerberus.Auth.Grant.{Bytes, AuthError, bad_envelope, Quota, Caveat, Grant}

abbrev pub cap_envelope_version : ℕ
cap_envelope_version = 2

pub record Decoder : Type 0 where
  pub rest : Bytes
  pub failed : Bool

abbrev pub D : Type 0 → Type 0
D A = Decoder → A × Decoder

abbrev pub then_read : {A B : Type 0} → A × Decoder → (A → D B) → B × Decoder
then_read (a, d) f = f a d

infixl 5 ◌>>=◌
unfoldable pub ◌>>=◌ : {A B : Type 0} → D A → (A → D B) → D B
◌>>=◌ m f d = then_read (m d) f

unfoldable pub pure : {A : Type 0} → A → D A
pure a d = (a, d)

-- `need`, and the bytes that it makes sure of; without them the zero value `fallback`.
abbrev taken : {A : Type 0} → Bool → ℕ → A → (Bytes → A) → D A
taken true n fallback read d = (fallback, record d { failed = true })
taken false n fallback read d = (read (take n d.rest), record d { rest = drop n d.rest })

abbrev pub need : {A : Type 0} → ℕ → A → (Bytes → A) → D A
need n fallback read d = taken (d.failed || ltb (length d.rest) n) n fallback read d

-- The number with these bytes, the highest first.
unfoldable pub big_endian : ℕ → Bytes → ℕ
big_endian acc [] = acc
big_endian acc (b ∷ bs) = big_endian (acc * 256 + b) bs

unfoldable pub u8 : D ℕ
unfolding big_endian
u8 = need 1 0 (big_endian 0)

unfoldable pub u32 : D ℕ
unfolding big_endian
u32 = need 4 0 (big_endian 0)

unfoldable pub u64 : D ℕ
unfolding big_endian
u64 = need 8 0 (big_endian 0)

unfoldable pub bytes : D Bytes
unfolding u32
bytes = do n ← u32; need n [] (λ bs. bs)

-- int64(v) of a uint64.
abbrev pub int64_of : ℕ → ℤ
int64_of v = if ltb v (2 ^ 63) then pos v else negsuc (2 ^ 64 - 1 - v)

abbrev pub zeros : ℕ → Bytes
zeros zero = []
zeros (suc n) = 0 ∷ zeros n

-- copyFixed into an array of `size` zeros.
abbrev pub copy_fixed : ℕ → Bytes → Bytes
copy_fixed size src = if length src == size then src else zeros size

unfoldable pub fixed : ℕ → D Bytes
unfolding bytes
fixed size = do src ← bytes; pure (copy_fixed size src)

abbrev quota_if : Bool → D (Option Quota)
quota_if false = pure none
quota_if true = do
  b ← u64
  f ← u64
  s ← u64
  pure (some (record { bytes = b; flops = f; secs = s }))

unfoldable pub quota : D (Option Quota)
unfolding u8 u64
quota = do tag ← u8; quota_if (tag == 1)

-- `for i := uint32(0); i < n && d.err == nil; i++ { ... }`
unfoldable pub repeat : {A : Type 0} → D A → ℕ → D (List A)
repeat item zero d = ([], d)
repeat item (suc n) d =
    let rest : D (List _) = repeat item n in
    if d.failed then ([], d) else (item >>= (λ x. rest >>= (λ xs. pure (x ∷ xs)))) d

abbrev pub caveat : D Caveat
caveat = do op ← bytes; val ← bytes; pure (record { op = op; val = val })

abbrev parent_if : Bool → D (Option Bytes)
parent_if false = pure none
parent_if true = do p ← fixed 16; pure (some p)

unfoldable pub parent_id : D (Option Bytes)
unfolding u8 fixed
parent_id = do tag ← u8; parent_if (tag == 1)

-- The fields after the version, in the order of the encoder.
unfoldable pub grant_fields : D Grant
unfolding bytes fixed quota u32 u64 repeat parent_id
grant_fields = do
  id ← fixed 16
  kind ← bytes
  node ← fixed 32
  path ← bytes
  bound ← quota
  rights ← (u32 >>= repeat bytes)
  caveats ← (u32 >>= repeat caveat)
  issuer ← fixed 32
  parent ← parent_id
  not_before ← u64
  expiry ← u64
  nonce ← fixed 12
  ancestors ← (u32 >>= repeat (fixed 16))
  pure (record {
    id = id;
    resource = record { kind = kind; node = node; path = path; quota = bound };
    rights = rights;
    caveats = caveats;
    issuer = issuer;
    parent = parent;
    ancestors = ancestors;
    not_before = int64_of not_before;
    expiry = int64_of expiry;
    nonce = nonce;
  })

abbrev if_read : Grant × Decoder → Result AuthError Grant
if_read (g, d) = if d.failed then err bad_envelope else ok g

abbrev if_versioned : ℕ × Decoder → Result AuthError Grant
if_versioned (v, d) =
    if not (v == cap_envelope_version) then err bad_envelope else if_read (grant_fields d)

unfoldable pub decode_canonical : Bytes → Result AuthError Grant
unfolding u8 grant_fields
decode_canonical b = if_versioned (u8 (record { rest = b; failed = false }))
