-- ===== src/Mesh/KeyExpr/Laws.antt =====
-- daemon/mesh/keyexpr.go: the backtracking matcher against a relation on chunks.
use cerberus.Base.{
  ◌≡◌, ◌↔◌, refl, inl, inr, ℕ, Bool, true, false, ◌&&◌, ◌||◌, List, [], ◌∷◌, map, arith,
  if◌then◌else◌, Bool-cases, subst, All,
}
use cerberus.Base.Bytes.{bytes_eq, bytes_eq_iff}
use cerberus.Mesh.KeyExpr.{
  Chunk, star, double_star, any_tail, on_chunk, is_empty, match_chunks, match_key, split_key,
}

-- What one chunk of an expression stands for.
pub data Pattern : Type 0 where
  one many : Pattern
  plain : Chunk → Pattern

unfoldable pub classify : Chunk → Pattern
classify p = if bytes_eq p double_star then many else if bytes_eq p star then one else plain p

-- `*` matches one chunk, `**` any number of them, and any other chunk itself.
pub data Matches : List Pattern → List Chunk → Type 0 where
  done : Matches [] []
  match_one :
      {ps : List Pattern} {k : Chunk} {ks : List Chunk}
      → Matches ps ks
      → Matches (one ∷ ps) (k ∷ ks)
  many_none : {ps : List Pattern} {ks : List Chunk} → Matches ps ks → Matches (many ∷ ps) ks
  many_more :
      {ps : List Pattern} {k : Chunk} {ks : List Chunk}
      → Matches (many ∷ ps) ks
      → Matches (many ∷ ps) (k ∷ ks)
  match_plain :
      {ps : List Pattern} {p k : Chunk} {ks : List Chunk}
      → p ≡ k
      → Matches ps ks
      → Matches (plain p ∷ ps) (k ∷ ks)

many_all : (ks : List Chunk) → Matches (many ∷ []) ks
many_all [] = many_none done
many_all (k ∷ ks) = many_more (many_all ks)

any_tail-Matches :
    (ps : List Pattern) (f : List Chunk → Bool)
    → ((ks : List Chunk) → f ks ≡ true → Matches ps ks)
    → (ks : List Chunk) → any_tail f ks ≡ true
    → Matches (many ∷ ps) ks
unfolding any_tail
any_tail-Matches ps f sound [] h = many_none (sound [] h)
any_tail-Matches ps f sound (k ∷ ks) h = elim (Bool-cases (f (k ∷ ks))) [
  | inl e ↦ many_none (sound (k ∷ ks) e)
  | inr e ↦ many_more (any_tail-Matches ps f sound ks (ground arith))
]

-- A matcher for one chunk and the rest, given by what the chunk is.
sound_chunk :
    (p : Chunk) (ps : List Chunk)
    → ((ks : List Chunk) → match_chunks ps ks ≡ true → Matches (map classify ps) ks)
    → (ks : List Chunk) → match_chunks (p ∷ ps) ks ≡ true
    → Matches (map classify (p ∷ ps)) ks
unfolding match_chunks classify
sound_chunk p ps ih ks h = elim (Bool-cases (bytes_eq p double_star)) [
  | inl e ↦ rw e (tail_case ps ih (rw e at h))
  | inr e ↦ elim (Bool-cases (bytes_eq p star)) [
    | inl s ↦ rw (e, s) (one_case ks (rw (e, s) at h))
    | inr s ↦ rw (e, s) (plain_case ks (rw (e, s) at h))
  ]
]
  where
    tail_case :
        (ps : List Chunk)
        → ((ks : List Chunk) → match_chunks ps ks ≡ true → Matches (map classify ps) ks)
        → is_empty ps || any_tail (match_chunks ps) ks ≡ true
        → Matches (many ∷ map classify ps) ks
    tail_case [] ih h = many_all ks
    tail_case (q ∷ qs) ih h =
        any_tail-Matches (map classify (q ∷ qs)) (match_chunks (q ∷ qs)) ih ks h

    one_case :
        (ks : List Chunk)
        → on_chunk ks (λ k ks. match_chunks ps ks) ≡ true
        → Matches (one ∷ map classify ps) ks
    one_case [] h = cc
    one_case (k ∷ ks) h = match_one (ih ks h)

    plain_case :
        (ks : List Chunk)
        → on_chunk ks (λ k ks. bytes_eq p k && match_chunks ps ks) ≡ true
        → Matches (plain p ∷ map classify ps) ks
    plain_case [] h = cc
    plain_case (k ∷ ks) h = match_plain ((bytes_eq_iff p k).0 (ground arith)) (ih ks (ground arith))

match_chunks_sound : (ps ks : List Chunk) → match_chunks ps ks ≡ true → Matches (map classify ps) ks
match_chunks_sound [] [] h = done
match_chunks_sound [] (k ∷ ks) h = unfold match_chunks in cc h
match_chunks_sound (p ∷ ps) ks h = sound_chunk p ps (match_chunks_sound ps) ks h

module _ (f : List Chunk → Bool) (qs : List Pattern)
    (complete : (ks : List Chunk) → Matches qs ks → f ks ≡ true) where
  complete_one : {ks : List Chunk} → Matches (one ∷ qs) ks → on_chunk ks (λ k ks. f ks) ≡ true
  complete_one (match_one d) = complete _ d

  complete_plain :
      {p : Chunk} {ks : List Chunk}
      → Matches (plain p ∷ qs) ks
      → on_chunk ks (λ k ks. bytes_eq p k && f ks) ≡ true
  complete_plain {p} (match_plain {k = k} {ks = ks} e d) =
      ground (arith, (bytes_eq_iff p k).1 e, complete ks d)

  any_tail_here : (ks : List Chunk) → f ks ≡ true → any_tail f ks ≡ true
  unfolding any_tail
  any_tail_here [] h = h
  any_tail_here (k ∷ ks) h = rw h

  complete_many : {ks : List Chunk} → Matches (many ∷ qs) ks → any_tail f ks ≡ true
  unfolding any_tail
  complete_many (many_none {ks = ks} d) = any_tail_here ks (complete ks d)
  complete_many (many_more {k = k} {ks = ks} d) = ground (arith, complete_many d)

complete_empty : {ks : List Chunk} → Matches [] ks → is_empty ks ≡ true
complete_empty done = refl

complete_chunk :
    (p : Chunk) (ps : List Chunk)
    → ((ks : List Chunk) → Matches (map classify ps) ks → match_chunks ps ks ≡ true)
    → (ks : List Chunk) → Matches (classify p ∷ map classify ps) ks
    → match_chunks (p ∷ ps) ks ≡ true
unfolding match_chunks classify
complete_chunk p ps ih ks d = elim (Bool-cases (bytes_eq p double_star)) [
  | inl e ↦
      let here : classify p ≡ many = rw e in
      rw e (
        either (is_empty ps)
          (complete_many (match_chunks ps) (map classify ps) ih (as_pattern here)))
  | inr e ↦ elim (Bool-cases (bytes_eq p star)) [
    | inl s ↦
        let here : classify p ≡ one = rw (e, s) in
        rw (e, s) (complete_one (match_chunks ps) (map classify ps) ih (as_pattern here))
    | inr s ↦
        let here : classify p ≡ plain p = rw (e, s) in
        rw (e, s) (complete_plain (match_chunks ps) (map classify ps) ih (as_pattern here))
  ]
]
  where
    as_pattern : {q : Pattern} → classify p ≡ q → Matches (q ∷ map classify ps) ks
    as_pattern e = subst (λ r. Matches (r ∷ map classify ps) ks) e d

    either : (a : Bool) {b : Bool} → b ≡ true → a || b ≡ true
    either true h = refl
    either false h = h

match_chunks_complete :
    (ps ks : List Chunk) → Matches (map classify ps) ks → match_chunks ps ks ≡ true
match_chunks_complete [] ks d = unfold match_chunks in complete_empty d
match_chunks_complete (p ∷ ps) ks d = complete_chunk p ps (match_chunks_complete ps) ks d

-- An expression matches a key exactly when, the slashes at both ends of both trimmed, its chunks match
-- the key's: `*` one chunk, `**` any number, and every other chunk itself.
pub match_key_iff :
    (expr key : List ℕ)
    → (match_key expr key ≡ true) ↔ Matches (map classify (split_key expr)) (split_key key)
unfolding match_key
match_key_iff expr key = (
  match_chunks_sound (split_key expr) (split_key key),
  match_chunks_complete (split_key expr) (split_key key),
)

-- No chunk is a wildcard.
abbrev pub IsPlain : List Chunk → Type 0
IsPlain ps = All (λ p. (bytes_eq p double_star ≡ false) × (bytes_eq p star ≡ false)) ps

plain-eq : (ps ks : List Chunk) → IsPlain ps → match_chunks ps ks ≡ true → ps ≡ ks
unfolding match_chunks
plain-eq [] [] n h = refl
plain-eq [] (k ∷ ks) n h = cc
plain-eq (p ∷ ps) [] n h = cc (rw (n.0.0, n.0.1) at h)
plain-eq (p ∷ ps) (k ∷ ks) n h =
    let both : bytes_eq p k && match_chunks ps ks ≡ true = rw (n.0.0, n.0.1) at h in
    ground (arith, both, bytes_eq_iff p k, plain-eq ps ks n.1)

plain_self : (ps : List Chunk) → IsPlain ps → match_chunks ps ps ≡ true
unfolding match_chunks
plain_self [] n = refl
plain_self (p ∷ ps) n = rw (n.0.0, n.0.1, (bytes_eq_iff p p).1 refl) (plain_self ps n.1)

-- An expression with no wildcard matches exactly the keys with the same chunks.
pub match_key-plain :
    (expr key : List ℕ)
    → IsPlain (split_key expr)
    → (match_key expr key ≡ true) ↔ (split_key expr ≡ split_key key)
unfolding match_key
match_key-plain expr key n = (
  plain-eq (split_key expr) (split_key key) n,
  λ e. subst (λ ks. match_chunks (split_key expr) ks ≡ true) e (plain_self (split_key expr) n),
)
