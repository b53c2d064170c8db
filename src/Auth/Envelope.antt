-- ===== src/Auth/Envelope.antt =====
-- daemon/auth/signedcap.go: the canonical bytes of a grant, the envelope around them, and what
-- issues and verifies envelopes. The order of the caveats is the one that a stable sort gives.
pub mod Decoder
pub mod Order
pub mod Reads
pub mod Canonical
pub mod Accept
pub mod Issued
mod Tests
use cerberus.Base.{
  ℕ, ◌+◌, ◌-◌, ◌/◌, ◌%◌, ◌^◌, Bool, true, false, not, List, [], ◌∷◌, ◌++◌, Option, none, some,
  Result, ok, err, ltb, ◌==◌, length, take, drop, if◌then◌else◌,
}
use cerberus.Base.Bytes.{bytes_eq, bytes_ltb}
use cerberus.Base.Int.{ℤ, pos, negsuc}
use cerberus.Auth.Grant.{
  Bytes, AuthError, bad_envelope, Quota, ResourceRef, Caveat, Grant, caveat_key, verify_decoded,
  issued, issue_attenuated, then_narrower,
}
use Decoder.{decode_canonical, cap_envelope_version}

-- binary.BigEndian.AppendUint32 and AppendUint64.
abbrev pub u32_bytes : ℕ → Bytes
u32_bytes v = v / 2 ^ 24 % 256 ∷ v / 2 ^ 16 % 256 ∷ v / 2 ^ 8 % 256 ∷ v % 256 ∷ []

abbrev pub u64_bytes : ℕ → Bytes
u64_bytes v = u32_bytes (v / 2 ^ 32) ++ u32_bytes v

-- uint64(x) of an int64.
abbrev pub u64_of : ℤ → ℕ
u64_of (pos n) = n % 2 ^ 64
u64_of (negsuc n) = 2 ^ 64 - 1 - n % 2 ^ 64

abbrev pub sized : Bytes → Bytes
sized v = u32_bytes (length v) ++ v

abbrev pub quota_bytes : Option Quota → Bytes
quota_bytes none = 0 ∷ []
quota_bytes (some q) = 1 ∷ (u64_bytes q.bytes ++ (u64_bytes q.flops ++ u64_bytes q.secs))

abbrev pub caveat_bytes : Caveat → Bytes
caveat_bytes c = sized c.op ++ sized c.val

-- `for _, x := range xs { ... }`
unfoldable pub put_each : {A : Type 0} → (A → Bytes) → List A → Bytes
put_each put [] = []
put_each put (x ∷ xs) = put x ++ put_each put xs

unfoldable pub insert_caveat : Caveat → List Caveat → List Caveat
insert_caveat c [] = c ∷ []
insert_caveat c (d ∷ cs) =
    let rest = insert_caveat c cs in
    if bytes_ltb (caveat_key d) (caveat_key c) then d ∷ rest else c ∷ d ∷ cs

unfoldable pub sort_caveats : List Caveat → List Caveat
unfolding insert_caveat
sort_caveats [] = []
sort_caveats (c ∷ cs) = insert_caveat c (sort_caveats cs)

abbrev pub parent_bytes : Option Bytes → Bytes
parent_bytes none = 0 ∷ []
parent_bytes (some p) = 1 ∷ sized p

abbrev pub counted : {A : Type 0} → (A → Bytes) → List A → Bytes
counted put xs = u32_bytes (length xs) ++ put_each put xs

unfoldable pub canonical_bytes : Grant → Bytes
unfolding put_each sort_caveats
canonical_bytes g =
    cap_envelope_version
    ∷ (sized g.id
        ++ (sized g.resource.kind
            ++ (sized g.resource.node
                ++ (sized g.resource.path
                    ++ (quota_bytes g.resource.quota
                        ++ (counted sized g.rights
                            ++ (counted caveat_bytes (sort_caveats g.caveats)
                                ++ (sized g.issuer
                                    ++ (parent_bytes g.parent
                                        ++ (u64_bytes (u64_of g.not_before)
                                            ++ (u64_bytes (u64_of g.expiry)
                                                ++ (sized g.nonce
                                                    ++ counted sized g.ancestors))))))))))))

unfoldable pub encode_envelope : Grant → Bytes → Bytes
encode_envelope g sig = canonical_bytes g ++ sig

abbrev pub signature_size : ℕ
signature_size = 64

-- `if !bytesEqual(canonicalBytes(g), pre) { ... }`
abbrev pub re_encoded : Bytes → Bytes → Result AuthError Grant → Result AuthError (Grant × Bytes)
re_encoded pre sig (err e) = err e
re_encoded pre sig (ok g) =
    if not (bytes_eq (canonical_bytes g) pre) then err bad_envelope else ok (g, sig)

unfoldable pub decode_envelope : Bytes → Result AuthError (Grant × Bytes)
decode_envelope env =
    let boundary : ℕ = length env - signature_size in
    if ltb (length env) signature_size
    then err bad_envelope
    else re_encoded (take boundary env) (drop boundary env) (decode_canonical (take boundary env))

abbrev pub then_verified :
    (Bytes → Bytes → Bytes → Bool)
    → Bytes
    → ℤ
    → Option (Bytes → Bool)
    → Result AuthError (Grant × Bytes)
    → Result AuthError Grant
then_verified check issuer_pub now is_revoked (err e) = err e
then_verified check issuer_pub now is_revoked (ok (g, sig)) =
    verify_decoded (check issuer_pub (canonical_bytes g) sig) issuer_pub g now is_revoked

-- `check` is `ed25519.Verify`.
unfoldable pub verify_envelope :
    (Bytes → Bytes → Bytes → Bool)
    → Bytes
    → Bytes
    → ℤ
    → Option (Bytes → Bool)
    → Result AuthError Grant
verify_envelope check issuer_pub env now is_revoked =
    if not (length issuer_pub == 32)
    then err bad_envelope
    else then_verified check issuer_pub now is_revoked (decode_envelope env)

-- `Issue` after the checks: `sign` is the key store's `Sign`, and `none` its failure.
abbrev pub signed : (Bytes → Option Bytes) → Grant → Option Bytes → Option Bytes
signed sign g none = none
signed sign g (some sig) = some (encode_envelope g sig)

abbrev pub then_signed :
    (Bytes → Option Bytes) → Result AuthError Grant → Result AuthError (Option Bytes)
then_signed sign (err e) = err e
then_signed sign (ok g) = ok (signed sign g (sign (canonical_bytes g)))

-- `ok none` stands for the key store's error. `id` and `nonce` are what the random source yields.
unfoldable pub issue_envelope :
    (Bytes → Option Bytes) → Bytes → Bytes → Bytes → Grant → Result AuthError (Option Bytes)
issue_envelope sign issuer_pub id nonce g = then_signed sign (issued issuer_pub id nonce g)

abbrev pub then_attenuated :
    (Bytes → Option Bytes)
    → Bytes
    → Bytes
    → Bytes
    → Grant
    → Result AuthError (Grant × Bytes)
    → Result AuthError (Option Bytes)
then_attenuated sign issuer_pub id nonce child (err e) = err e
then_attenuated sign issuer_pub id nonce child (ok (parent, sig)) =
    then_signed sign (issue_attenuated issuer_pub id nonce parent child)

-- `IssueAttenuated`, from the parent's envelope.
unfoldable pub attenuate_envelope :
    (Bytes → Option Bytes) → Bytes → Bytes → Bytes → Bytes → Grant → Result AuthError (Option Bytes)
attenuate_envelope sign issuer_pub id nonce parent_env child =
    then_attenuated sign issuer_pub id nonce child (decode_envelope parent_env)

-- `VerifyChild`, from the child's envelope.
unfoldable pub verify_child_envelope :
    (Bytes → Bytes → Bytes → Bool)
    → Bytes
    → Bytes
    → ℤ
    → Option (Bytes → Bool)
    → Grant
    → Result AuthError Grant
verify_child_envelope check issuer_pub env now is_revoked parent =
    then_narrower parent (verify_envelope check issuer_pub env now is_revoked)
