-- ===== src/Auth/Envelope/Tests.antt =====
-- daemon/auth/signedcap.go: the envelope of a child grant, and the theorems at it.
use cerberus.Base.{◌==◌, ◌≡◌, ◌↔◌, refl, Bool, false, [], ◌∷◌, none, some, ok, err, arith}
use cerberus.Base.Bytes.{codes, bytes_ltb}
use cerberus.Base.Int.{pos, negsuc}
use cerberus.Auth.Grant.{Bytes, bad_envelope, Grant}
use cerberus.Auth.Grant.Caveats.{caveat}
use cerberus.Auth.Envelope.{
  canonical_bytes, encode_envelope, decode_envelope, verify_envelope, sort_caveats,
}
use cerberus.Auth.Envelope.Decoder.{zeros, decode_canonical, u8, big_endian}
use cerberus.Auth.Envelope.Order.{Ordered}
use cerberus.Auth.Envelope.Reads.{FitsQuota, FitsParent, FitsInt64, FitsCaveat}
use cerberus.Auth.Envelope.Canonical.{IsWireGrant, decode_envelope_iff}
use cerberus.Auth.Envelope.Accept.{Accepted, verify_envelope_iff}
use mathlib.Core.Option.{some_inj}
use cerberus.Base.{ap, sym, ◌∙◌, Option, length, true}
use cerberus.Base.Bytes.{has_prefix, bytes_eq}
use cerberus.Auth.Grant.{issue_attenuated, verify_decoded}
use cerberus.Auth.Grant.Verify.{Trusted, verify_decoded_iff}
use cerberus.Auth.Envelope.{attenuate_envelope, verify_child_envelope, then_signed}
use cerberus.Auth.Envelope.Issued.{
  KeyLaws, attenuate_envelope-parent, attenuate-verify_child_envelope,
}

abbrev owner : Bytes
owner = 7 ∷ zeros 31

abbrev camera_grant : Grant
camera_grant = record {
  id = 2 ∷ zeros 15;
  resource = record {
    kind = codes "dfs";
    node = 9 ∷ zeros 31;
    path = codes "/a";
    quota = some (record { bytes = 100; flops = 0; secs = 300 });
  };
  rights = codes "read" ∷ [];
  caveats = caveat (codes "day") (codes "mon") ∷ caveat (codes "zone") (codes "eu") ∷ [];
  issuer = owner;
  parent = some (1 ∷ zeros 15);
  ancestors = (1 ∷ zeros 15) ∷ [];
  not_before = negsuc 9;
  expiry = pos 100;
  nonce = 5 ∷ zeros 11;
}

camera_grant-IsWireGrant : IsWireGrant camera_grant
unfolding Ordered FitsQuota FitsParent FitsInt64 FitsCaveat bytes_ltb
camera_grant-IsWireGrant = record {
  id = refl;
  kind = omega arith;
  node = refl;
  path = omega arith;
  quota = omega arith;
  rights_count = omega arith;
  rights = (omega arith, tt);
  caveats_count = omega arith;
  caveats = ((omega arith, omega arith), ((omega arith, omega arith), tt));
  ordered = (refl, tt);
  issuer = refl;
  parent = refl;
  not_before = omega arith;
  expiry = omega arith;
  nonce = refl;
  ancestors_count = omega arith;
  ancestors = (refl, tt);
}

abbrev signature : Bytes
signature = 4 ∷ zeros 63

abbrev starts_with_4 : Bytes → Bytes → Bytes → Bool
starts_with_4 key payload [] = false
starts_with_4 key payload (b ∷ bs) = b == 4

-- A byte in front makes the version wrong.
padded_refused : decode_envelope (0 ∷ encode_envelope camera_grant signature) ≡ err bad_envelope
unfolding decode_envelope encode_envelope canonical_bytes sort_caveats decode_canonical u8
    big_endian bytes_ltb
padded_refused = refl

decode_envelope_iff_example :
    (decode_envelope (encode_envelope camera_grant signature) ≡ ok (camera_grant, signature))
    ↔ (encode_envelope camera_grant signature ≡ encode_envelope camera_grant signature)
decode_envelope_iff_example =
    decode_envelope_iff camera_grant signature (encode_envelope camera_grant signature)
      camera_grant-IsWireGrant refl

verify_envelope_iff_example :
    (verify_envelope starts_with_4 owner (encode_envelope camera_grant signature) (pos 50) none
      ≡ ok camera_grant)
    ↔ Accepted starts_with_4 owner
        (encode_envelope camera_grant signature)
        camera_grant
        (pos 50)
        none
verify_envelope_iff_example =
    verify_envelope_iff starts_with_4 owner (encode_envelope camera_grant signature) camera_grant
      (pos 50) none camera_grant-IsWireGrant

-- The camera's grant narrowed to a path below its own, with one caveat more.
abbrev porch_request : Grant
porch_request = record camera_grant {
  id = zeros 16;
  resource = record {
    kind = codes "dfs";
    node = 9 ∷ zeros 31;
    path = codes "/a/b";
    quota = some (record { bytes = 50; flops = 3; secs = 30 });
  };
  nonce = zeros 12;
}

abbrev porch_grant : Grant
porch_grant = record porch_request {
  id = 3 ∷ zeros 15;
  parent = some (2 ∷ zeros 15);
  ancestors = (1 ∷ zeros 15) ∷ (2 ∷ zeros 15) ∷ [];
  nonce = 6 ∷ zeros 11;
}

porch_grant-IsWireGrant : IsWireGrant porch_grant
unfolding Ordered FitsQuota FitsParent FitsInt64 FitsCaveat bytes_ltb
porch_grant-IsWireGrant = record {
  id = refl;
  kind = omega arith;
  node = refl;
  path = omega arith;
  quota = omega arith;
  rights_count = omega arith;
  rights = (omega arith, tt);
  caveats_count = omega arith;
  caveats = ((omega arith, omega arith), ((omega arith, omega arith), tt));
  ordered = (refl, tt);
  issuer = refl;
  parent = refl;
  not_before = omega arith;
  expiry = omega arith;
  nonce = refl;
  ancestors_count = omega arith;
  ancestors = (refl, (refl, tt));
}

abbrev sign_always : Bytes → Option Bytes
sign_always payload = some signature

sign_always-KeyLaws : KeyLaws sign_always starts_with_4 owner
sign_always-KeyLaws = record {
  size = λ payload sig e. ap length (sym (some_inj.0 e));
  accepted = λ payload sig e. ap (starts_with_4 owner payload) (sym (some_inj.0 e));
}

porch_issued :
    issue_attenuated owner (3 ∷ zeros 15) (6 ∷ zeros 11) camera_grant porch_request ≡ ok porch_grant
unfolding issue_attenuated bytes_eq has_prefix
porch_issued = refl

porch_envelope :
    attenuate_envelope sign_always owner
      (3 ∷ zeros 15)
      (6 ∷ zeros 11)
      (encode_envelope camera_grant signature)
      porch_request
    ≡ ok (some (encode_envelope porch_grant signature))
porch_envelope =
    attenuate_envelope-parent sign_always owner (3 ∷ zeros 15) (6 ∷ zeros 11) signature camera_grant
      porch_request camera_grant-IsWireGrant refl
    ∙ ap (then_signed sign_always) porch_issued

porch_grant-Trusted : Trusted true owner porch_grant (pos 50) (some (λ i. bytes_eq i (4 ∷ [])))
unfolding verify_decoded bytes_eq
porch_grant-Trusted =
    (verify_decoded_iff true owner porch_grant (pos 50) (some (λ i. bytes_eq i (4 ∷ [])))).0 refl

attenuate-verify_child_envelope_example :
    verify_child_envelope starts_with_4 owner
      (encode_envelope porch_grant signature)
      (pos 50)
      (some (λ i. bytes_eq i (4 ∷ [])))
      camera_grant
    ≡ ok porch_grant
attenuate-verify_child_envelope_example =
    attenuate-verify_child_envelope sign_always starts_with_4 owner (3 ∷ zeros 15) (6 ∷ zeros 11)
      signature camera_grant porch_request porch_grant (encode_envelope porch_grant signature)
      (pos 50) (some (λ i. bytes_eq i (4 ∷ []))) sign_always-KeyLaws camera_grant-IsWireGrant refl
      porch_issued porch_grant-IsWireGrant porch_envelope porch_grant-Trusted
