-- ===== src/Auth/Grant/Tests.antt =====
-- daemon/auth/signedcap.go: a delegation of a path, its revocation, and the theorems at it.
use cerberus.Base.{ℕ, ◌≡◌, ◌≢◌, ◌↔◌, refl, true, [], ◌∷◌, none, some, ok, err}
use cerberus.Base.Bytes.{codes, bytes_eq, has_prefix}
use cerberus.Base.Int.{pos}
use cerberus.Auth.Grant.{
  Bytes, revoked, not_attenuated, Grant, check_narrower, verify_decoded, issue_attenuated,
}
use cerberus.Auth.Grant.Narrow.{Narrower, check_narrower_iff}
use cerberus.Auth.Grant.Verify.{Trusted}
use cerberus.Auth.Grant.Chain.{Delegated, direct, further, revoked_root_denied}
use cerberus.Auth.Grant.Caveats.{caveat, SwapAccepted, caveat_swapped}

abbrev owner_key : Bytes
owner_key = 7 ∷ 7 ∷ []

abbrev laptop_key : Bytes
laptop_key = 8 ∷ 8 ∷ []

abbrev root_grant : Grant
root_grant = record {
  id = 1 ∷ [];
  resource = record {
    kind = codes "dfs";
    node = 9 ∷ [];
    path = codes "/a";
    quota = some (record { bytes = 100; flops = 0; secs = 0 });
  };
  rights = codes "read" ∷ codes "write" ∷ [];
  caveats = caveat (codes "zone") (codes "eu=west") ∷ [];
  issuer = owner_key;
  parent = none;
  ancestors = [];
  not_before = pos 10;
  expiry = pos 100;
  nonce = 5 ∷ [];
}

-- What a caller asks for: a path below the root's, one right, less quota, the window left open.
abbrev request : Bytes → ℕ → Grant
request path bytes = record {
  id = 0 ∷ [];
  resource = record {
    kind = codes "dfs";
    node = 9 ∷ [];
    path = path;
    quota = some (record { bytes = bytes; flops = 3; secs = 0 });
  };
  rights = codes "read" ∷ [];
  caveats = caveat (codes "zone") (codes "eu=west") ∷ [];
  issuer = [];
  parent = none;
  ancestors = [];
  not_before = pos 0;
  expiry = pos 0;
  nonce = 0 ∷ [];
}

abbrev child_grant : Grant
child_grant = record (request (codes "/a/b") 50) {
  id = 2 ∷ [];
  issuer = owner_key;
  parent = some (1 ∷ []);
  ancestors = (1 ∷ []) ∷ [];
  not_before = pos 10;
  expiry = pos 100;
  nonce = 6 ∷ [];
}

abbrev leaf_grant : Grant
leaf_grant = record (request (codes "/a/b/c") 20) {
  id = 3 ∷ [];
  issuer = laptop_key;
  parent = some (2 ∷ []);
  ancestors = (1 ∷ []) ∷ (2 ∷ []) ∷ [];
  not_before = pos 10;
  expiry = pos 100;
  nonce = 7 ∷ [];
}

child_issued :
    issue_attenuated owner_key (2 ∷ []) (6 ∷ []) root_grant (request (codes "/a/b") 50)
    ≡ ok child_grant
unfolding issue_attenuated bytes_eq has_prefix
child_issued = refl

leaf_issued :
    issue_attenuated laptop_key (3 ∷ []) (7 ∷ []) child_grant (request (codes "/a/b/c") 20)
    ≡ ok leaf_grant
unfolding issue_attenuated bytes_eq has_prefix
leaf_issued = refl

sibling_refused :
    issue_attenuated owner_key (2 ∷ []) (6 ∷ []) root_grant (request (codes "/ab") 50)
    ≡ err not_attenuated
unfolding issue_attenuated bytes_eq has_prefix
sibling_refused = refl

quota_refused :
    issue_attenuated owner_key (2 ∷ []) (6 ∷ []) root_grant (request (codes "/a/b") 101)
    ≡ err not_attenuated
unfolding issue_attenuated bytes_eq has_prefix
quota_refused = refl

chain : Delegated root_grant leaf_grant
chain =
    further laptop_key (3 ∷ []) (7 ∷ []) (request (codes "/a/b/c") 20)
      (direct owner_key (2 ∷ []) (6 ∷ []) (request (codes "/a/b") 50) child_issued) leaf_issued

leaf_verified : verify_decoded true laptop_key leaf_grant (pos 50) none ≡ ok leaf_grant
unfolding verify_decoded bytes_eq
leaf_verified = refl

check_narrower_iff_example :
    (check_narrower root_grant child_grant ≡ ok tt) ↔ Narrower root_grant child_grant
check_narrower_iff_example = check_narrower_iff root_grant child_grant

revoked_root_denied_example :
    ((g : Grant)
      → verify_decoded true laptop_key leaf_grant (pos 50) (some (λ i. bytes_eq i (1 ∷ []))) ≢ ok g)
    × (Trusted true laptop_key leaf_grant (pos 50) none
        → verify_decoded true laptop_key leaf_grant (pos 50) (some (λ i. bytes_eq i (1 ∷ [])))
          ≡ err revoked)
revoked_root_denied_example =
    revoked_root_denied true laptop_key root_grant leaf_grant (pos 50) (λ i. bytes_eq i (1 ∷ []))
      chain (unfold bytes_eq in refl)

caveat_swapped_example : SwapAccepted root_grant (codes "zone") (codes "eu") (codes "west") []
caveat_swapped_example =
    caveat_swapped root_grant (codes "zone") (codes "eu") (codes "west") [] refl
