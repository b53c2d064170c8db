-- ===== src/Auth/Token.antt =====
-- daemon/auth/auth.go: bearer tokens, and the revocations of their issuer. Text is its bytes.
-- JSON, base64, Ed25519, the printed serial number and a duration's whole seconds are parameters.
-- A durable backend of revocations is an interface of the package.
pub mod Wire
pub mod Check
pub mod Widen
pub mod Revoked
pub mod Stored
mod Tests
use cerberus.Base.{
  ℕ, ◌+◌, ◌%◌, ◌-◌, Bool, true, false, not, ◌&&◌, ◌||◌, List, [], ◌∷◌, ◌++◌, Option, none, some,
  Result, ok, err, ltb, if◌then◌else◌, u64_mod, ◌==◌, zero, suc,
}
use cerberus.Base.Bytes.{bytes_eq, has_prefix, codes}
use cerberus.Base.Int.{ℤ, pos, negsuc, ltb_ℤ, is_zero}

abbrev pub Bytes : Type 0
Bytes = List ℕ

pub record Claims : Type 0 where
  pub id : Bytes
  pub subject : Bytes
  pub rights : List Bytes
  pub resource : Bytes
  pub not_before : ℤ
  pub expiry : ℤ

pub data TokenError : Type 0 where
  malformed_token malformed_payload malformed_signature invalid_signature malformed_claims :
      TokenError
  not_yet_valid expired revoked lacks_right right_not_held backend_failed : TokenError

-- What is outside the package: `sign` and `check` are Ed25519 under the issuer's key.
pub record Outside : Type 0 where
  pub marshal : Claims → Bytes
  pub unmarshal : Bytes → Option Claims
  pub encode : Bytes → Bytes
  pub decode : Bytes → Option Bytes
  pub sign : Bytes → Bytes
  pub check : Bytes → Bytes → Bool
  pub format_uint : ℕ → Bytes
  pub seconds : ℕ → ℕ

-- `RevocationBackend`: `add` returns whether it failed.
pub record Backend : Type 1 where
  pub State : Type 0
  pub is_revoked : State → Bytes → Bool
  pub add : Bytes → State → Bool × State

unfoldable pub holds_right : List Bytes → Bytes → Bool
unfolding bytes_eq
holds_right [] right = false
holds_right (r ∷ rs) right = bytes_eq r right || bytes_eq r (codes "admin") || holds_right rs right

unfoldable pub allows : Claims → Bytes → Bytes → Bool
unfolding holds_right has_prefix
allows c right resource =
    if not (holds_right c.rights right)
    then false
    else if not (bytes_eq c.resource [])
        && not (bytes_eq resource [])
        && not (has_prefix resource c.resource)
    then false
    else true

-- strings.SplitN(token, ".", 2), where it has two parts.
unfoldable pub cut : Bytes → Option (Bytes × Bytes)
cut [] = none
cut (b ∷ bs) =
    let rest = cut bs in
    if b == b'.' then some ([], bs) else elim rest [ none ↦ none | some (x, y) ↦ some (b ∷ x, y) ]

unfoldable pub in_ids : List Bytes → Bytes → Bool
in_ids [] id = false
in_ids (x ∷ xs) id = bytes_eq x id || in_ids xs id

-- now + n
unfoldable pub later : ℤ → ℕ → ℤ
later (pos k) n = pos (k + n)
later (negsuc k) n = if ltb k n then pos (n - k - 1) else negsuc (k - n)

module _ (out : Outside) (backend : Backend) where
  -- `hooks` counts the registered callbacks.
  pub record Issuer : Type 0 where
    pub serial : ℕ
    pub revoked_ids : List Bytes
    pub durable : Option backend.State
    pub hooks : ℕ

  unfoldable pub use_revocation_backend : backend.State → Issuer → Issuer
  use_revocation_backend b i = record i { durable = some b }

  unfoldable pub on_revoke : Issuer → Issuer
  on_revoke i = record i { hooks = i.hooks + 1 }

  unfoldable pub revoked_under : Option backend.State → List Bytes → Bytes → Bool
  unfolding in_ids
  revoked_under none ids id = in_ids ids id
  revoked_under (some b) ids id = backend.is_revoked b id

  unfoldable pub is_revoked : Issuer → Bytes → Bool
  unfolding revoked_under
  is_revoked i id = revoked_under i.durable i.revoked_ids id

  abbrev pub mark_under :
      Bytes → Issuer → Option backend.State → Result TokenError (Unit {0}) × Issuer
  mark_under id i none = (ok tt, record i { revoked_ids = id ∷ i.revoked_ids })
  mark_under id i (some b) =
      let (failed, c) = backend.add id b in
      (if failed then err backend_failed else ok tt, record i { durable = some c })

  unfoldable pub mark_revoked : Bytes → Issuer → Result TokenError (Unit {0}) × Issuer
  mark_revoked id i = mark_under id i i.durable

  abbrev pub repeated : ℕ → Bytes → List Bytes
  repeated zero id = []
  repeated (suc n) id = id ∷ repeated n id

  -- The ids that the callbacks are given: none when the revocation failed.
  abbrev pub told :
      Bytes
      → Result TokenError (Unit {0}) × Issuer
      → Result TokenError (Unit {0}) × List Bytes × Issuer
  told id (ok u, i) = (ok u, repeated i.hooks id, i)
  told id (err e, i) = (err e, [], i)

  unfoldable pub revoke : Bytes → Issuer → Result TokenError (Unit {0}) × List Bytes × Issuer
  unfolding mark_revoked
  revoke id i = told id (mark_revoked id i)

  unfoldable pub apply_revocation : Bytes → Issuer → Result TokenError (Unit {0}) × Issuer
  unfolding mark_revoked
  apply_revocation id i = mark_revoked id i

  -- `ttl` is in nanoseconds.
  abbrev pub expiry_after : ℤ → ℤ → ℤ
  unfolding later
  expiry_after now (pos zero) = pos 0
  expiry_after now (pos (suc n)) = later now (out.seconds (suc n))
  expiry_after now (negsuc n) = pos 0

  unfoldable pub minted_claims : ℕ → Bytes → List Bytes → Bytes → ℤ → ℤ → Claims
  unfolding expiry_after
  minted_claims serial subject rights resource ttl now = record {
    id = out.format_uint serial;
    subject = subject;
    rights = rights;
    resource = resource;
    not_before = now;
    expiry = expiry_after now ttl;
  }

  unfoldable pub mint : Bytes → List Bytes → Bytes → ℤ → ℤ → Issuer → Bytes × Issuer
  unfolding minted_claims
  mint subject rights resource ttl now i =
      let serial : ℕ = (i.serial + 1) % u64_mod in
      let payload : Bytes = out.marshal (minted_claims serial subject rights resource ttl now) in
      (out.encode payload ++ (b'.' ∷ out.encode (out.sign payload)), record i { serial = serial })

  abbrev pub check_claims : ℤ → Issuer → Claims → Result TokenError Claims
  unfolding is_revoked
  check_claims now i c =
      if ltb_ℤ now c.not_before
      then err not_yet_valid
      else if not (is_zero c.expiry) && not (ltb_ℤ now c.expiry)
      then err expired
      else if is_revoked i c.id
      then err revoked
      else ok c

  abbrev pub check_unmarshalled : ℤ → Issuer → Option Claims → Result TokenError Claims
  unfolding check_claims
  check_unmarshalled now i none = err malformed_claims
  check_unmarshalled now i (some c) = check_claims now i c

  abbrev pub check_decoded : ℤ → Issuer → Option Bytes → Option Bytes → Result TokenError Claims
  unfolding check_unmarshalled
  check_decoded now i none sig = err malformed_payload
  check_decoded now i (some payload) none = err malformed_signature
  check_decoded now i (some payload) (some sig) =
      if not (out.check payload sig)
      then err invalid_signature
      else check_unmarshalled now i (out.unmarshal payload)

  abbrev pub check_parts : ℤ → Issuer → Option (Bytes × Bytes) → Result TokenError Claims
  unfolding check_decoded
  check_parts now i none = err malformed_token
  check_parts now i (some (x, y)) = check_decoded now i (out.decode x) (out.decode y)

  unfoldable pub verify : Bytes → ℤ → Issuer → Result TokenError Claims
  unfolding check_parts cut
  verify token now i = check_parts now i (cut token)

  abbrev pub allowed : Bytes → Bytes → Result TokenError Claims → Result TokenError Claims
  unfolding allows
  allowed right resource (err e) = err e
  allowed right resource (ok c) = if not (allows c right resource) then err lacks_right else ok c

  unfoldable pub authorize : Bytes → Bytes → Bytes → ℤ → Issuer → Result TokenError Claims
  unfolding verify allowed
  authorize token right resource now i = allowed right resource (verify token now i)

  unfoldable pub all_allowed : Claims → List Bytes → Bool
  unfolding allows
  all_allowed c [] = true
  all_allowed c (r ∷ rs) = allows c r [] && all_allowed c rs

  abbrev pub attenuate_checked :
      List Bytes
      → Bytes
      → ℤ
      → ℤ
      → Issuer
      → Result TokenError Claims
      → Result TokenError Bytes × Issuer
  unfolding all_allowed mint
  attenuate_checked keep resource ttl now i (err e) = (err e, i)
  attenuate_checked keep resource ttl now i (ok pc) =
      let scope : Bytes = if bytes_eq resource [] then pc.resource else resource in
      let (token, j) = mint pc.subject keep scope ttl now i in
      if not (all_allowed pc keep) then (err right_not_held, i) else (ok token, j)

  unfoldable pub attenuate :
      Bytes → List Bytes → Bytes → ℤ → ℤ → Issuer → Result TokenError Bytes × Issuer
  unfolding verify attenuate_checked
  attenuate parent keep resource ttl now i =
      attenuate_checked keep resource ttl now i (verify parent now i)
