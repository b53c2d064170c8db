-- ===== src/Auth/Token/Tests.antt =====
-- daemon/auth/auth.go: a token system that is simple enough to run, and the theorems at it.
use cerberus.Base.{
  take-length, drop-length, ℕ, zero, suc, ◌+◌, ◌-◌, ◌/◌, ◌≡◌, ◌≢◌, ◌↔◌, refl, ap, ◌∙◌, true, false,
  List, [], ◌∷◌, ◌++◌, map, Option, some, ok, arith, length, take, drop, ◌==◌, All,
}
use cerberus.Base.Bytes.{bytes_eq, bytes_eq_iff, has_prefix, codes}
use cerberus.Base.Int.{ℤ, pos, negsuc}
use cerberus.Auth.Token.{
  Bytes, Claims, Outside, Issuer, holds_right, allows, is_revoked, revoke, mint, minted_claims,
  verify, authorize, all_allowed, check_claims, later, revoked_under,
}
use cerberus.Store
use cerberus.Store.{Store}
use cerberus.Store.Bucket
use cerberus.Auth.Token.Stored.{
  store_revocations, IsReliable, stored_revoked, stored_add, store_revocations-BackendLaws,
}
use cerberus.Auth.Token.Wire.{OutsideLaws, verify-mint}
use cerberus.Auth.Token.Check.{Granted, authorize-mint}
use cerberus.Auth.Token.Widen.{Widened, attenuate_widens}
use cerberus.Auth.Token.Revoked.{here, next, minted, revoked_never_authorized}

-- Lists with their lengths before them.
abbrev put_bytes : Bytes → Bytes
put_bytes xs = length xs ∷ xs

abbrev get_bytes : Bytes → Bytes × Bytes
get_bytes [] = ([], [])
get_bytes (n ∷ bs) = (take n bs, drop n bs)

get_bytes-put_bytes : (xs ys : Bytes) → get_bytes (put_bytes xs ++ ys) ≡ (xs, ys)
get_bytes-put_bytes xs ys = rw (take-length xs ys, drop-length xs ys) refl

put_all : List Bytes → Bytes
put_all [] = []
put_all (r ∷ rs) = put_bytes r ++ put_all rs

get_all : ℕ → Bytes → List Bytes
get_all zero bs = []
get_all (suc n) bs = let (r, rest) = get_bytes bs in r ∷ get_all n rest

get_all-put_all : (rs : List Bytes) → get_all (length rs) (put_all rs) ≡ rs
unfolding put_all get_all
get_all-put_all [] = refl
get_all-put_all (r ∷ rs) =
    rw (take-length r (put_all rs), drop-length r (put_all rs), get_all-put_all rs) refl

put_int : ℤ → Bytes → Bytes
put_int (pos n) bs = 0 ∷ n ∷ bs
put_int (negsuc n) bs = 1 ∷ n ∷ bs

get_int : Bytes → ℤ × Bytes
get_int (zero ∷ n ∷ bs) = (pos n, bs)
get_int (suc m ∷ n ∷ bs) = (negsuc n, bs)
get_int [] = (pos 0, [])
get_int (m ∷ []) = (pos 0, [])

get_int-put_int : (z : ℤ) (bs : Bytes) → get_int (put_int z bs) ≡ (z, bs)
unfolding put_int get_int
get_int-put_int (pos n) bs = refl
get_int-put_int (negsuc n) bs = refl

get_rights : Bytes → List Bytes
get_rights [] = []
get_rights (n ∷ bs) = get_all n bs

put_fields : Claims → Bytes
put_fields c =
    put_bytes c.id
    ++ (put_bytes c.subject ++ (put_bytes c.resource ++ (length c.rights ∷ put_all c.rights)))

get_fields : ℤ → ℤ → Bytes → Claims
get_fields nbf exp b2 =
    let (id, b3) = get_bytes b2 in
    let (sub, b4) = get_bytes b3 in
    let (res, b5) = get_bytes b4 in
    record {
      id = id;
      subject = sub;
      rights = get_rights b5;
      resource = res;
      not_before = nbf;
      expiry = exp;
    }

put_claims : Claims → Bytes
put_claims c = put_int c.not_before (put_int c.expiry (put_fields c))

get_claims : Bytes → Option Claims
get_claims bs =
    let (nbf, b1) = get_int bs in let (exp, b2) = get_int b1 in some (get_fields nbf exp b2)

get_fields-put_fields : (c : Claims) → get_fields c.not_before c.expiry (put_fields c) ≡ c
unfolding get_fields put_fields get_rights
get_fields-put_fields c =
    let rights : Bytes = length c.rights ∷ put_all c.rights in
    let resource : Bytes = put_bytes c.resource ++ rights in
    let subject : Bytes = put_bytes c.subject ++ resource in
    rw
      (
        take-length c.id subject,
        drop-length c.id subject,
        take-length c.subject resource,
        drop-length c.subject resource,
        take-length c.resource rights,
        drop-length c.resource rights,
        get_all-put_all c.rights,
      )
      refl

get_claims-put_claims : (c : Claims) → get_claims (put_claims c) ≡ some c
unfolding get_claims put_claims
get_claims-put_claims c =
    rw
      (
        get_int-put_int c.not_before (put_int c.expiry (put_fields c)),
        get_int-put_int c.expiry (put_fields c),
      )
      (ap some (get_fields-put_fields c))

-- No code below 47 is written, so no dot is.
abbrev shift_up : Bytes → Bytes
shift_up bs = map (λ b. b + 47) bs

abbrev shift_down : Bytes → Bytes
shift_down bs = map (λ b. b - 47) bs

shift_down-shift_up : (bs : Bytes) → shift_down (shift_up bs) ≡ bs
shift_down-shift_up [] = refl
shift_down-shift_up (b ∷ bs) =
    let back : b + 47 - 47 ≡ b = omega arith in rw (back, shift_down-shift_up bs) refl

shift_up-no_dot : (bs : Bytes) → All (λ x. (x == b'.') ≡ false) (shift_up bs)
shift_up-no_dot [] = tt
shift_up-no_dot (b ∷ bs) = (ground arith, shift_up-no_dot bs)

-- The check value of a payload is its length.
abbrev toy : Outside
toy = record {
  marshal = put_claims;
  unmarshal = get_claims;
  encode = shift_up;
  decode = λ b. some (shift_down b);
  sign = λ p. length p ∷ [];
  check = λ p s. bytes_eq s (length p ∷ []);
  format_uint = λ n. n ∷ [];
  seconds = λ n. n / 1_000_000_000;
}

toy-OutsideLaws : OutsideLaws toy
toy-OutsideLaws = record {
  unmarshal_marshal = get_claims-put_claims;
  decode_encode = λ b. ap some (shift_down-shift_up b);
  no_dot = shift_up-no_dot;
  check_sign = λ p. (bytes_eq_iff (length p ∷ []) (length p ∷ [])).1 refl;
}

abbrev empty_store : Store Bytes Bytes
empty_store = record { opened = true; entries = []; faults = [] }

-- An issuer over an empty store.
abbrev daemon : Issuer toy store_revocations
daemon = record { serial = 0; revoked_ids = []; durable = some empty_store; hooks = 1 }

abbrev read_exec : List Bytes
read_exec = codes "read" ∷ codes "exec" ∷ []

abbrev ten_seconds : ℤ
ten_seconds = pos 10_000_000_000

abbrev first : Bytes × Issuer toy store_revocations
first = mint toy store_revocations (codes "bob") read_exec (codes "/a") ten_seconds (pos 100) daemon

-- Bob's token opens what is below its path, for its ten seconds.
authorize-mint_example :
    (authorize toy store_revocations first.0 (codes "read") (codes "/a/b") (pos 105) first.1
      ≡ ok (
          minted_claims toy store_revocations 1
            (codes "bob")
            read_exec
            (codes "/a")
            ten_seconds
            (pos 100)))
    ↔ Granted toy store_revocations first.1
        (minted_claims toy store_revocations 1
          (codes "bob")
          read_exec
          (codes "/a")
          ten_seconds
          (pos 100))
        (codes "read")
        (codes "/a/b")
        (pos 105)
authorize-mint_example =
    authorize-mint toy store_revocations toy-OutsideLaws (codes "bob") read_exec (codes "/a")
      ten_seconds (pos 100) daemon first.1 (codes "read") (codes "/a/b") (pos 105)

first_in_window :
    check_claims toy store_revocations (pos 105) first.1 (
      minted_claims toy store_revocations 1
        (codes "bob")
        read_exec
        (codes "/a")
        ten_seconds
        (pos 100))
    ≡ ok (
        minted_claims toy store_revocations 1
          (codes "bob")
          read_exec
          (codes "/a")
          ten_seconds
          (pos 100))
unfolding check_claims minted_claims mint stored_revoked Store.get is_revoked revoked_under later
first_in_window = refl

first_verified :
    verify toy store_revocations first.0 (pos 105) first.1
    ≡ ok (
        minted_claims toy store_revocations 1
          (codes "bob")
          read_exec
          (codes "/a")
          ten_seconds
          (pos 100))
first_verified =
    verify-mint toy store_revocations toy-OutsideLaws (codes "bob") read_exec (codes "/a")
      ten_seconds (pos 100) (pos 105) daemon first.1
    ∙ first_in_window

attenuate_widens_example :
    Widened toy store_revocations first.0
      (codes "read" ∷ [])
      (codes "/")
      (pos 105)
      first.1
      (codes "read")
      (codes "/z")
      (pos 9_000)
      first.1
attenuate_widens_example =
    attenuate_widens toy store_revocations toy-OutsideLaws first.0 (codes "read" ∷ []) (codes "/")
      (pos 105) first.1
      (minted_claims toy store_revocations 1 (codes "bob") read_exec (codes "/a") ten_seconds
        (pos 100))
      first_verified
      (unfold all_allowed allows minted_claims bytes_eq holds_right has_prefix in refl)
      (unfold bytes_eq in refl) (codes "read") (codes "/z") (pos 9_000) first.1
      (unfold holds_right bytes_eq in refl) (unfold has_prefix in refl) (omega arith)
      (unfold mint is_revoked revoked_under stored_revoked Store.get in refl)

abbrev revoked_first : Issuer toy store_revocations
revoked_first = (revoke toy store_revocations (1 ∷ []) first.1).2

abbrev second : Bytes × Issuer toy store_revocations
second =
    mint toy store_revocations (codes "eve") read_exec (codes "/a") (pos 0) (pos 200) revoked_first

abbrev second_claims : Claims
second_claims =
    minted_claims toy store_revocations 2 (codes "eve") read_exec (codes "/a") (pos 0) (pos 200)

second_accepted :
    authorize toy store_revocations second.0 (codes "read") (codes "/a/b") (pos 300) second.1
    ≡ ok second_claims
unfolding revoke mint bytes_eq stored_add Store.put stored_revoked Store.get Bucket.put_entry
second_accepted =
    (authorize-mint toy store_revocations toy-OutsideLaws (codes "eve") read_exec (codes "/a")
        (pos 0) (pos 200) revoked_first second.1 (codes "read") (codes "/a/b") (pos 300)).1
      (unfold minted_claims mint revoke allows bytes_eq holds_right has_prefix is_revoked
          revoked_under in
        record { started = omega arith; not_ended = λ z. cc; unrevoked = refl; allowed_by = refl })

revoked_never_authorized_example : second_claims.id ≢ 1 ∷ []
unfolding stored_add Store.put
revoked_never_authorized_example =
    revoked_never_authorized toy store_revocations IsReliable store_revocations-BackendLaws (1 ∷ [])
      first.1 second.1 (unfold mint in (refl, refl)) (unfold revoke mint bytes_eq in refl)
      (next here (minted (codes "eve") read_exec (codes "/a") (pos 0) (pos 200))) second.0
      (codes "read") (codes "/a/b") (pos 300) second_claims second_accepted
