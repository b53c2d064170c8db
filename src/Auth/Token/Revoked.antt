-- ===== src/Auth/Token/Revoked.antt =====
-- daemon/auth/auth.go: what an issuer knows of a revoked id from then on.
use cerberus.Base.{
  ◌≡◌, ◌≢◌, inl, inr, refl, sym, ◌∙◌, subst, Bool, true, false, not, List, Option, none, some,
  Result, ok, err, arith, if◌then◌else◌, Bool-cases,
}
use cerberus.Base.Bytes.{bytes_eq_iff}
use cerberus.Base.Int.{ℤ}
use cerberus.Auth.Token.{
  Bytes, Claims, TokenError, invalid_signature, Outside, Backend, Issuer, cut, in_ids, is_revoked,
  revoked_under, mark_revoked, mark_under, revoke, told, apply_revocation, mint, check_claims,
  check_unmarshalled, check_decoded, check_parts, verify, authorize, all_allowed, attenuate_checked,
  attenuate,
}
use cerberus.Auth.Token.Check.{check_claims-ok, allowed-ok}

-- What a backend promises in the states in which it works: an add leaves it working, an id that was
-- added is revoked, and adding drops none, failed or not. In other states it promises nothing.
pub record BackendLaws (backend : Backend) (Works : backend.State → Type 0) : Type 0 where
  pub kept : (id : Bytes) (b : backend.State) → Works b → Works (backend.add id b).1
  pub added :
      (id : Bytes) (b : backend.State)
      → Works b
      → (backend.add id b).0 ≡ false
      → backend.is_revoked (backend.add id b).1 id ≡ true
  pub sticky :
      (id x : Bytes) (b : backend.State)
      → Works b
      → backend.is_revoked b x ≡ true
      → backend.is_revoked (backend.add id b).1 x ≡ true

module _ (out : Outside) (backend : Backend) where
  -- One call on an issuer that is serving requests.
  pub data Step (i : Issuer out backend) : Issuer out backend → Type 0 where
    minted :
        (subject : Bytes) (rights : List Bytes) (resource : Bytes) (ttl now : ℤ)
        → Step i (mint out backend subject rights resource ttl now i).1
    delegated :
        (parent : Bytes) (keep : List Bytes) (resource : Bytes) (ttl now : ℤ)
        → Step i (attenuate out backend parent keep resource ttl now i).1
    revoked_here : (id : Bytes) → Step i (revoke out backend id i).2
    revoked_there : (id : Bytes) → Step i (apply_revocation out backend id i).1

  pub data Reach (i : Issuer out backend) : Issuer out backend → Type 0 where
    here : Reach i i
    next : {j k : Issuer out backend} → Reach i j → Step j k → Reach i k

  module _ (Works : backend.State → Type 0) (laws : BackendLaws backend Works) where
    -- The backend works, if there is one.
    abbrev pub Serves : Option backend.State → Type 0
    Serves none = Unit {0}
    Serves (some b) = Works b

    -- The issuer knows that an id is revoked.
    abbrev Knows : Bytes → Issuer out backend → Type 0
    Knows x i = (is_revoked out backend i x ≡ true) × Serves i.durable

    mark_under-Knows :
        (id x : Bytes) (i : Issuer out backend) (d : Option backend.State)
        → i.durable ≡ d
        → Knows x i
        → Knows x (mark_under out backend id i d).1
    unfolding is_revoked revoked_under in_ids
    mark_under-Knows id x i none e (h, w) =
        let before : in_ids i.revoked_ids x ≡ true = rw e at h in
        (rw e (ground (arith, before)), rw e tt)
    mark_under-Knows id x i (some b) e (h, w) =
        let before : backend.is_revoked b x ≡ true = rw e at h in
        let works : Works b = rw e at w in (laws.sticky id x b works before, laws.kept id b works)

    mark_under-added :
        (id : Bytes) (i : Issuer out backend) (d : Option backend.State)
        → i.durable ≡ d
        → Serves d
        → (mark_under out backend id i d).0 ≡ ok tt
        → Knows id (mark_under out backend id i d).1
    unfolding is_revoked revoked_under in_ids
    mark_under-added id i none e w h = (rw e (ground (arith, (bytes_eq_iff id id).1 refl)), rw e tt)
    mark_under-added id i (some b) e w h = elim (Bool-cases (backend.add id b).0) [
      | inl f ↦ cc (rw f at h)
      | inr f ↦ (laws.added id b w f, laws.kept id b w)
    ]

    told-Issuer :
        (id : Bytes) (r : Result TokenError (Unit {0}) × Issuer out backend)
        → (told out backend id r).2 ≡ r.1
    told-Issuer id (ok u, i) = refl
    told-Issuer id (err e, i) = refl

    told-ok :
        (id : Bytes) (r : Result TokenError (Unit {0}) × Issuer out backend)
        → (told out backend id r).0 ≡ r.0
    told-ok id (ok u, i) = refl
    told-ok id (err e, i) = refl

    mark_revoked-Knows :
        (id x : Bytes) (i : Issuer out backend)
        → Knows x i
        → Knows x (mark_revoked out backend id i).1
    unfolding mark_revoked
    mark_revoked-Knows id x i h = mark_under-Knows id x i i.durable refl h

    attenuate-Knows :
        (keep : List Bytes) (resource : Bytes) (ttl now : ℤ) (i : Issuer out backend)
        (r : Result TokenError Claims) (x : Bytes)
        → Knows x i
        → Knows x (attenuate_checked out backend keep resource ttl now i r).1
    unfolding attenuate_checked mint is_revoked
    attenuate-Knows keep resource ttl now i (err e) x h = h
    attenuate-Knows keep resource ttl now i (ok pc) x h =
        elim (Bool-cases (all_allowed out backend pc keep)) [ inl a ↦ rw a h | inr a ↦ rw a h ]

    Step-Knows : {i j : Issuer out backend} → Step i j → (x : Bytes) → Knows x i → Knows x j
    unfolding revoke apply_revocation attenuate
    Step-Knows {i} (minted subject rights resource ttl now) x h = unfold mint is_revoked in h
    Step-Knows {i} (delegated parent keep resource ttl now) x h =
        attenuate-Knows keep resource ttl now i (verify out backend parent now i) x h
    Step-Knows {i} (revoked_here id) x h =
        subst (λ j. Knows x j) (sym (told-Issuer id (mark_revoked out backend id i)))
          (mark_revoked-Knows id x i h)
    Step-Knows {i} (revoked_there id) x h = mark_revoked-Knows id x i h

    Reach-Knows : {i j : Issuer out backend} → Reach i j → (x : Bytes) → Knows x i → Knows x j
    Reach-Knows here x h = h
    Reach-Knows (next r st) x h = Step-Knows st x (Reach-Knows r x h)

    revoke-Knows :
        (id : Bytes) (i : Issuer out backend)
        → Serves i.durable
        → (revoke out backend id i).0 ≡ ok tt
        → Knows id (revoke out backend id i).2
    unfolding revoke mark_revoked
    revoke-Knows id i w h =
        subst (λ j. Knows id j) (sym (told-Issuer id (mark_under out backend id i i.durable)))
          (mark_under-added id i i.durable refl w
            (sym (told-ok id (mark_under out backend id i i.durable)) ∙ h))

    checked-unrevoked :
        (t : ℤ) (j : Issuer out backend) (c d : Claims)
        → check_claims out backend t j c ≡ ok d
        → is_revoked out backend j d.id ≡ false
    checked-unrevoked t j c d h =
        let (x, y, z, q) = check_claims-ok out backend t j c d h in
        subst (λ e. is_revoked out backend j e.id ≡ false) q z

    decoded-unrevoked :
        (t : ℤ) (j : Issuer out backend) (p s : Option Bytes) (d : Claims)
        → check_decoded out backend t j p s ≡ ok d
        → is_revoked out backend j d.id ≡ false
    unfolding check_decoded check_unmarshalled
    decoded-unrevoked t j none s d h = cc
    decoded-unrevoked t j (some p) none d h = cc
    decoded-unrevoked t j (some p) (some s) d h = split (out.unmarshal p) (out.check p s) h
      where
        split :
            (o : Option Claims) (b : Bool)
            → (if not b then err invalid_signature else check_unmarshalled out backend t j o) ≡ ok d
            → is_revoked out backend j d.id ≡ false
        split none true h = cc
        split none false h = cc
        split (some c) true h = checked-unrevoked t j c d h
        split (some c) false h = cc

    verify-unrevoked :
        (token : Bytes) (t : ℤ) (j : Issuer out backend) (d : Claims)
        → verify out backend token t j ≡ ok d
        → is_revoked out backend j d.id ≡ false
    unfolding verify check_parts
    verify-unrevoked token t j d h = split (cut token) h
      where
        split :
            (o : Option (Bytes × Bytes))
            → check_parts out backend t j o ≡ ok d
            → is_revoked out backend j d.id ≡ false
        split none h = cc
        split (some (x, y)) h = decoded-unrevoked t j (out.decode x) (out.decode y) d h

    -- On an issuer that keeps its revocations in memory, or in a backend with its laws that works at
    -- the time of the revocation: once an id was revoked with success, no token with that id is ever
    -- accepted again, whatever is minted, delegated or revoked in between.
    pub revoked_never_authorized :
        (id : Bytes) (i j : Issuer out backend)
        → Serves i.durable
        → (revoke out backend id i).0 ≡ ok tt
        → Reach (revoke out backend id i).2 j
        → (token right asked : Bytes) (t : ℤ) (c : Claims)
        → authorize out backend token right asked t j ≡ ok c
        → c.id ≢ id
    unfolding authorize
    revoked_never_authorized id i j works done r token right asked t c h e =
        let (verified, a) = allowed-ok out backend right asked (verify out backend token t j) c h in
        let live : is_revoked out backend j id ≡ false =
          subst (λ x. is_revoked out backend j x ≡ false) e
            (verify-unrevoked token t j c verified) in
        cc (live, (Reach-Knows r id (revoke-Knows id i works done)).0)
