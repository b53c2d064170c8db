-- ===== src/Auth/Envelope/Canonical.antt =====
-- daemon/auth/signedcap.go: envelopes that decode, and the grants that they decode to.
use cerberus.Base.{
  take-length, drop-length, take-drop, length-append, ℕ, ◌+◌, ◌-◌, ◌^◌, ◌<◌, Bool, true, false, not,
  ◌≡◌, ◌↔◌, refl, sym, ap, ◌∙◌, [], ◌∷◌, ◌++◌, Result, ok, err, ltb, length, take, drop,
  if◌then◌else◌, arith, All, inl, inr, Bool-cases,
}
use mathlib.Core.List.{append-nil}
use cerberus.Base.Bytes.{bytes_eq_iff}
use cerberus.Auth.Grant.{Bytes, AuthError, bad_envelope, Grant}
use cerberus.Auth.Envelope.{
  sized, caveat_bytes, counted, canonical_bytes, encode_envelope, decode_envelope, u64_of,
  u64_bytes, quota_bytes, parent_bytes, re_encoded,
}
use cerberus.Auth.Envelope.Decoder.{
  cap_envelope_version, bytes, fixed, caveat, decode_canonical, grant_fields,
}
use cerberus.Auth.Envelope.Order.{Ordered, sort_caveats-sorted}
use cerberus.Auth.Envelope.Reads.{
  Reads, Reads-bind, Reads-last, Reads-pure, u64-Reads, bytes-Reads, fixed-Reads, quota-Reads,
  parent_id-Reads, u8-Reads, caveat-Reads, counted-Reads, FitsQuota, FitsParent, FitsCaveat,
  FitsInt64, int64_of-u64_of, u64_of-lt,
}

-- The fields have the sizes of their Go types, every length fits its count, and the caveats are in
-- their canonical order.
pub record IsWireGrant (g : Grant) : Type 0 where
  pub id : length g.id ≡ 16
  pub kind : length g.resource.kind < 2 ^ 32
  pub node : length g.resource.node ≡ 32
  pub path : length g.resource.path < 2 ^ 32
  pub quota : FitsQuota g.resource.quota
  pub rights_count : length g.rights < 2 ^ 32
  pub rights : All (λ r. length r < 2 ^ 32) g.rights
  pub caveats_count : length g.caveats < 2 ^ 32
  pub caveats : All FitsCaveat g.caveats
  pub ordered : Ordered g.caveats
  pub issuer : length g.issuer ≡ 32
  pub parent : FitsParent g.parent
  pub not_before : FitsInt64 g.not_before
  pub expiry : FitsInt64 g.expiry
  pub nonce : length g.nonce ≡ 12
  pub ancestors_count : length g.ancestors < 2 ^ 32
  pub ancestors : All (λ a. length a ≡ 16) g.ancestors

fields : Grant → Bytes
fields g =
    sized g.id
    ++ (sized g.resource.kind
        ++ (sized g.resource.node
            ++ (sized g.resource.path
                ++ (quota_bytes g.resource.quota
                    ++ (counted sized g.rights
                        ++ (counted caveat_bytes g.caveats
                            ++ (sized g.issuer
                                ++ (parent_bytes g.parent
                                    ++ (u64_bytes (u64_of g.not_before)
                                        ++ (u64_bytes (u64_of g.expiry)
                                            ++ (sized g.nonce
                                                ++ counted sized g.ancestors)))))))))))

canonical_bytes-fields :
    (g : Grant) → Ordered g.caveats → canonical_bytes g ≡ cap_envelope_version ∷ fields g
unfolding canonical_bytes fields
canonical_bytes-fields g o = rw (sort_caveats-sorted g.caveats o) refl

fields-Reads : (g : Grant) → IsWireGrant g → Reads grant_fields (fields g) g
unfolding grant_fields fields
fields-Reads g w = Reads-bind _ (fixed-Reads 16 g.id w.id (omega arith)) (
    Reads-bind _ (bytes-Reads g.resource.kind w.kind) (
      Reads-bind _ (fixed-Reads 32 g.resource.node w.node (omega arith)) (
        Reads-bind _ (bytes-Reads g.resource.path w.path) (
          Reads-bind _ (quota-Reads g.resource.quota w.quota) (
            Reads-bind _ (counted-Reads bytes sized g.rights w.rights_count bytes-Reads w.rights) (
              Reads-bind _
                (counted-Reads caveat caveat_bytes g.caveats w.caveats_count caveat-Reads w.caveats)
                (Reads-bind _ (fixed-Reads 32 g.issuer w.issuer (omega arith)) (
                  Reads-bind _ (parent_id-Reads g.parent w.parent) (
                    Reads-bind _
                      (u64-Reads (u64_of g.not_before) (u64_of-lt g.not_before w.not_before))
                      (Reads-bind _ (u64-Reads (u64_of g.expiry) (u64_of-lt g.expiry w.expiry)) (
                        Reads-bind _ (fixed-Reads 12 g.nonce w.nonce (omega arith)) (
                          Reads-last _
                            (counted-Reads (fixed 16) sized g.ancestors w.ancestors_count
                              (λ a e. fixed-Reads 16 a e (omega arith)) w.ancestors)
                            (rw
                              (
                                int64_of-u64_of g.not_before w.not_before,
                                int64_of-u64_of g.expiry w.expiry,
                              )
                              (Reads-pure g))))))))))))))

decode_canonical-canonical_bytes :
    (g : Grant) → IsWireGrant g → decode_canonical (canonical_bytes g) ≡ ok g
unfolding decode_canonical
decode_canonical-canonical_bytes g w =
    rw
      (
        canonical_bytes-fields g w.ordered,
        (u8-Reads cap_envelope_version).reads (fields g),
        sym (append-nil (fields g)),
        (fields-Reads g w).reads [],
      )
      refl

boundary : (pre sig : Bytes) → length sig ≡ 64 → length (pre ++ sig) - 64 ≡ length pre
boundary pre sig e = let l = length-append pre sig in omega arith

pub decode_envelope-encode_envelope :
    (g : Grant) (sig : Bytes)
    → IsWireGrant g
    → length sig ≡ 64
    → decode_envelope (encode_envelope g sig) ≡ ok (g, sig)
unfolding decode_envelope encode_envelope
decode_envelope-encode_envelope g sig w e =
    let pre : Bytes = canonical_bytes g in
    let l : length (pre ++ sig) ≡ length pre + length sig = length-append pre sig in
    let long : ltb (length (pre ++ sig)) 64 ≡ false = ground arith in
    rw
      (
        long,
        boundary pre sig e,
        take-length pre sig,
        drop-length pre sig,
        decode_canonical-canonical_bytes g w,
        (bytes_eq_iff pre pre).1 refl,
      )
      refl

abbrev or_else : Grant × Bytes → Result AuthError (Grant × Bytes) → Grant × Bytes
or_else d (ok r) = r
or_else d (err e) = d

pub test_passed :
    {b : Bool} {r r' : Grant × Bytes}
    → if◌then◌else◌ {A = Result AuthError (Grant × Bytes)} (not b) (err bad_envelope) (ok r) ≡ ok r'
    → (b ≡ true) × (r ≡ r')
test_passed {b = true} {r} h = (refl, ap (or_else r) h)
test_passed {b = false} h = cc

re_encoded_kept :
    (pre sig : Bytes) (res : Result AuthError Grant) (g : Grant) (sig' : Bytes)
    → re_encoded pre sig res ≡ ok (g, sig')
    → pre ++ sig ≡ canonical_bytes g ++ sig'
re_encoded_kept pre sig (err e) g sig' h = cc
re_encoded_kept pre sig (ok g') g sig' h =
    let (same, e) = test_passed h in
    sym (ap (λ b. b ++ sig) ((bytes_eq_iff (canonical_bytes g') pre).0 same))
    ∙ ap (λ p. canonical_bytes p.0 ++ p.1) e

pub long_enough :
    {b : Bool} {res res' : Result AuthError (Grant × Bytes)}
    → false ≡ b
    → if◌then◌else◌ {A = Result AuthError (Grant × Bytes)} b (err bad_envelope) res ≡ res'
    → res ≡ res'
long_enough {b = true} q h = cc
long_enough {b = false} q h = h

pub encode_envelope-decode_envelope :
    (env : Bytes) (g : Grant) (sig : Bytes)
    → decode_envelope env ≡ ok (g, sig)
    → env ≡ encode_envelope g sig
unfolding decode_envelope encode_envelope
encode_envelope-decode_envelope env g sig h = elim (Bool-cases (ltb (length env) 64)) [
  | inl q ↦ cc
  | inr q ↦
      let n : ℕ = length env - 64 in
      sym (take-drop n env)
      ∙ re_encoded_kept (take n env) (drop n env) (decode_canonical (take n env)) g sig
          (long_enough (sym q) h)
]

-- On grants in wire form with a signature of 64 bytes, an envelope decodes to a grant and its
-- signature exactly when it is their encoding: no other bytes are accepted for them.
pub decode_envelope_iff :
    (g : Grant) (sig env : Bytes)
    → IsWireGrant g
    → length sig ≡ 64
    → (decode_envelope env ≡ ok (g, sig)) ↔ (env ≡ encode_envelope g sig)
decode_envelope_iff g sig env w e = (
  encode_envelope-decode_envelope env g sig,
  λ q. ap decode_envelope q ∙ decode_envelope-encode_envelope g sig w e,
)
