-- ===== src/Auth/Grant.antt =====
-- daemon/auth/signedcap.go: grants, the narrowing check, and the checks of `Verify` on a decoded
-- envelope. Text is its bytes. A caveat's value is the text that `%v` prints for it.
pub mod Paths
pub mod Narrow
pub mod Verify
pub mod Chain
pub mod Caveats
mod Tests
use cerberus.Base.{
  ℕ, ◌+◌, ◌-◌, Bool, true, false, not, ◌&&◌, ◌||◌, List, [], ◌∷◌, ◌++◌, map, Option, none, some,
  Result, ok, err, ltb, leb, ◌==◌, length, if◌then◌else◌, get_elem?,
}
use cerberus.Base.Bytes.{bytes_eq, has_prefix}
use cerberus.Base.Int.{ℤ, ltb_ℤ, is_zero}

abbrev pub Bytes : Type 0
Bytes = List ℕ

pub data AuthError : Type 0 where
  bad_envelope bad_signature not_yet_valid expired revoked wrong_issuer not_attenuated no_rights :
      AuthError

pub record Quota : Type 0 where
  pub bytes : ℕ
  pub flops : ℕ
  pub secs : ℕ

pub record ResourceRef : Type 0 where
  pub kind : Bytes
  pub node : Bytes
  pub path : Bytes
  pub quota : Option Quota

pub record Caveat : Type 0 where
  pub op : Bytes
  pub val : Bytes

pub record Grant : Type 0 where
  pub id : Bytes
  pub resource : ResourceRef
  pub rights : List Bytes
  pub caveats : List Caveat
  pub issuer : Bytes
  pub parent : Option Bytes
  pub ancestors : List Bytes
  pub not_before : ℤ
  pub expiry : ℤ
  pub nonce : Bytes

-- Membership in the map that the source builds.
unfoldable pub contains : List Bytes → Bytes → Bool
contains [] a = false
contains (x ∷ xs) a = bytes_eq x a || contains xs a

unfoldable pub all_in : List Bytes → List Bytes → Bool
unfolding contains
all_in [] ys = true
all_in (x ∷ xs) ys = contains ys x && all_in xs ys

-- fmt.Sprintf("%s=%v", c.Op, c.Val)
abbrev pub caveat_key : Caveat → Bytes
caveat_key c = c.op ++ (b'=' ∷ c.val)

abbrev pub at_slash : Option ℕ → Bool
at_slash none = false
at_slash (some c) = c == b'/'

unfoldable pub has_path_prefix : Bytes → Bytes → Bool
has_path_prefix sub base =
    if bytes_eq base [] || bytes_eq sub base
    then true
    else if ltb (length sub) (length base) || not (has_prefix sub base)
    then false
    else at_slash (get_elem? base (length base - 1)) || at_slash (get_elem? sub (length base))

-- A bound of 0 is no bound.
abbrev pub bound_narrower : ℕ → ℕ → Bool
bound_narrower parent child = parent == 0 || (not (child == 0) && leb child parent)

unfoldable pub quota_narrower : Option Quota → Option Quota → Bool
quota_narrower none child = true
quota_narrower (some p) none = false
quota_narrower (some p) (some c) =
    bound_narrower p.bytes c.bytes && bound_narrower p.flops c.flops && bound_narrower p.secs c.secs

abbrev pub expiry_narrower : ℤ → ℤ → Bool
expiry_narrower parent child = is_zero parent || (not (is_zero child) && not (ltb_ℤ parent child))

-- The checks in the source's order; every refusal is `ErrNotAttenuated`.
unfoldable pub check_narrower : Grant → Grant → Result AuthError (Unit {0})
unfolding all_in has_path_prefix quota_narrower
check_narrower parent child =
    if not (all_in child.rights parent.rights)
    then err not_attenuated
    else if not (all_in (map caveat_key parent.caveats) (map caveat_key child.caveats))
    then err not_attenuated
    else if not (bytes_eq parent.resource.path [])
        && not (has_path_prefix child.resource.path parent.resource.path)
    then err not_attenuated
    else if not (quota_narrower parent.resource.quota child.resource.quota)
    then err not_attenuated
    else if ltb_ℤ child.not_before parent.not_before
    then err not_attenuated
    else if not (expiry_narrower parent.expiry child.expiry)
    then err not_attenuated
    else ok tt

unfoldable pub any_revoked : (Bytes → Bool) → List Bytes → Bool
any_revoked is_revoked [] = false
any_revoked is_revoked (a ∷ ids) = is_revoked a || any_revoked is_revoked ids

abbrev pub parent_revoked : (Bytes → Bool) → Option Bytes → Bool
parent_revoked is_revoked none = false
parent_revoked is_revoked (some p) = is_revoked p

abbrev pub revoked_in : Option (Bytes → Bool) → Grant → Bool
revoked_in none g = false
revoked_in (some is_revoked) g =
    is_revoked g.id || any_revoked is_revoked g.ancestors || parent_revoked is_revoked g.parent

-- `Verify` from the decoded envelope on. `signed` is what `ed25519.Verify` says of the issuer's
-- key, the grant's canonical bytes and the envelope's signature.
unfoldable pub verify_decoded :
    Bool → Bytes → Grant → ℤ → Option (Bytes → Bool) → Result AuthError Grant
unfolding any_revoked
verify_decoded signed issuer_pub g now is_revoked =
    if not (bytes_eq issuer_pub g.issuer)
    then err wrong_issuer
    else if not signed
    then err bad_signature
    else if ltb_ℤ now g.not_before
    then err not_yet_valid
    else if not (is_zero g.expiry) && not (ltb_ℤ now g.expiry)
    then err expired
    else if revoked_in is_revoked g
    then err revoked
    else ok g

abbrev pub checked : Grant → Grant → Result AuthError (Unit {0}) → Result AuthError Grant
checked parent child (ok _) = ok child
checked parent child (err e) = err e

abbrev pub then_narrower : Grant → Result AuthError Grant → Result AuthError Grant
then_narrower parent (ok child) = checked parent child (check_narrower parent child)
then_narrower parent (err e) = err e

unfoldable pub verify_child_decoded :
    Bool → Bytes → Grant → ℤ → Option (Bytes → Bool) → Grant → Result AuthError Grant
unfolding verify_decoded check_narrower
verify_child_decoded signed issuer_pub g now is_revoked parent =
    then_narrower parent (verify_decoded signed issuer_pub g now is_revoked)

unfoldable pub all_zero : Bytes → Bool
all_zero [] = true
all_zero (b ∷ bs) = b == 0 && all_zero bs

abbrev no_quota : Option Quota → Bool
no_quota none = true
no_quota (some q) = false

unfoldable pub is_zero_resource : ResourceRef → Bool
unfolding all_zero
is_zero_resource r = bytes_eq r.kind [] && all_zero r.node && bytes_eq r.path [] && no_quota r.quota

-- The child that `IssueAttenuated` signs, given the parent's decoded grant.
unfoldable pub attenuated : Grant → Grant → Result AuthError Grant
unfolding check_narrower is_zero_resource
attenuated parent child =
    let narrowed : Grant = record child {
      resource = if is_zero_resource child.resource then parent.resource else child.resource;
      not_before = if is_zero child.not_before then parent.not_before else child.not_before;
      expiry = if is_zero child.expiry then parent.expiry else child.expiry;
      parent = some parent.id;
      ancestors = parent.ancestors ++ (parent.id ∷ []);
    } in
    checked parent narrowed (check_narrower parent narrowed)

abbrev pub if_zero : Bytes → Bytes → Bytes
if_zero given fresh = if all_zero given then fresh else given

-- The grant that `Issue` signs. `issuer_pub` is the key store's public key, and `id` and `nonce`
-- are what the random source yields.
unfoldable pub issued : Bytes → Bytes → Bytes → Grant → Result AuthError Grant
unfolding all_zero
issued issuer_pub id nonce g =
    let filled : Grant = record g {
      issuer = issuer_pub;
      id = if_zero g.id id;
      nonce = if_zero g.nonce nonce;
    } in
    if length filled.rights == 0 then err no_rights else ok filled

abbrev pub then_issued : Bytes → Bytes → Bytes → Result AuthError Grant → Result AuthError Grant
then_issued issuer_pub id nonce (ok g) = issued issuer_pub id nonce g
then_issued issuer_pub id nonce (err e) = err e

unfoldable pub issue_attenuated : Bytes → Bytes → Bytes → Grant → Grant → Result AuthError Grant
unfolding issued attenuated
issue_attenuated issuer_pub id nonce parent child =
    then_issued issuer_pub id nonce (attenuated parent child)
