-- ===== src/Auth/Gossip/Union.antt =====
-- daemon/auth/gossip.go: the in-memory revocations after a run.
use cerberus.Base.{
  ◌≡◌, inl, inr, refl, ap, sym, ◌∙◌, Bool, true, false, ◌||◌, List, [], ◌∷◌, Option, none, some,
  if◌then◌else◌, Bool-cases, Option-cases,
}
use cerberus.Base.Bytes.{bytes_eq}
use cerberus.Auth.Token.{
  Bytes, Outside, Backend, Issuer, in_ids, is_revoked, revoked_under, mark_revoked, mark_under,
  apply_revocation,
}
use cerberus.Auth.Gossip.{gossip_run}

abbrev add_id : Option Bytes → List Bytes → List Bytes
add_id none ids = ids
add_id (some id) ids = if bytes_eq id [] then ids else id ∷ ids

-- The ids that a list of payloads carries.
abbrev pub ids_of : (Bytes → Option Bytes) → List Bytes → List Bytes
ids_of read [] = []
ids_of read (p ∷ ps) = add_id (read p) (ids_of read ps)

module _ (out : Outside) (backend : Backend) (read : Bytes → Option Bytes) where
  -- A revocation that was applied in memory.
  abbrev Noted : Bytes → Issuer out backend → Issuer out backend → Type 0
  Noted id i j = (j.durable ≡ none) × (j.revoked_ids ≡ id ∷ i.revoked_ids)

  mark_under-Noted :
      (id : Bytes) (i : Issuer out backend) (d : Option backend.State)
      → d ≡ none
      → i.durable ≡ d
      → Noted id i (mark_under out backend id i d).1
  mark_under-Noted id i none q e = (e, refl)
  mark_under-Noted id i (some b) q e = cc

  in_memory :
      (i : Issuer out backend) (x : Bytes)
      → i.durable ≡ none
      → is_revoked out backend i x ≡ in_ids i.revoked_ids x
  unfolding is_revoked revoked_under
  in_memory i x e = rw e refl

  -- On a node that keeps its revocations in memory, an id is revoked after a run exactly when it was
  -- before or one of the payloads carried it: neither their order nor repetitions matter.
  pub gossip_run_union :
      (payloads : List Bytes) (i : Issuer out backend)
      → i.durable ≡ none
      → (x : Bytes)
      → is_revoked out backend (gossip_run out backend read payloads i) x
        ≡ (is_revoked out backend i x || in_ids (ids_of read payloads) x)
  unfolding gossip_run in_ids
  gossip_run_union [] i e x = or_nothing (is_revoked out backend i x)
    where
      or_nothing : (b : Bool) → b ≡ (b || false)
      or_nothing true = refl
      or_nothing false = refl
  gossip_run_union (p ∷ ps) i e x = elim (Option-cases (read p)) [
    | inl n ↦ rw n (gossip_run_union ps i e x)
    | inr (id, n) ↦ elim (Bool-cases (bytes_eq id [])) [
      | inl b ↦ rw (n, b) (gossip_run_union ps i e x)
      | inr b ↦
          let (memory, ids) = noted id in
          let j : Issuer out backend = (apply_revocation out backend id i).1 in
          rw (n, b)
            (gossip_run_union ps j memory x
              ∙ ap (λ r. r || in_ids (ids_of read ps) x)
                  (in_memory j x memory ∙ ap (λ l. in_ids l x) ids)
              ∙ swap (bytes_eq id x) (in_ids i.revoked_ids x) (in_ids (ids_of read ps) x)
              ∙ ap (λ r. r || (bytes_eq id x || in_ids (ids_of read ps) x)) (sym (in_memory i x e)))
    ]
  ]
    where
      noted : (id : Bytes) → Noted id i (apply_revocation out backend id i).1
      noted id = unfold apply_revocation mark_revoked in mark_under-Noted id i i.durable e refl

      swap : (a b c : Bool) → ((a || b) || c) ≡ (b || (a || c))
      swap true true c = refl
      swap true false c = refl
      swap false true c = refl
      swap false false c = refl
