-- ===== src/Mesh/KeyExpr.antt =====
-- daemon/mesh/keyexpr.go: matching Zenoh-style key expressions. A key is its bytes.
pub mod Laws
pub mod Tests
use cerberus.Base.{ℕ, Bool, true, false, not, ◌&&◌, ◌||◌, List, [], ◌∷◌, ◌++◌, ◌==◌, if◌then◌else◌}
use cerberus.Base.Bytes.{bytes_eq}
use mathlib.Core.List.{reverse}

abbrev pub Chunk : Type 0
Chunk = List ℕ

abbrev pub star : Chunk
star = b'*' ∷ []

abbrev pub double_star : Chunk
double_star = b'*' ∷ b'*' ∷ []

-- Does `f` hold of some tail of the key, the whole key and the empty one included?
unfoldable pub any_tail : (List Chunk → Bool) → List Chunk → Bool
any_tail f [] = f []
any_tail f (k ∷ ks) = f (k ∷ ks) || any_tail f ks

abbrev pub on_chunk : List Chunk → (Chunk → List Chunk → Bool) → Bool
on_chunk [] f = false
on_chunk (k ∷ ks) f = f k ks

abbrev pub is_empty : List Chunk → Bool
is_empty [] = true
is_empty (k ∷ ks) = false

unfoldable pub match_chunks : List Chunk → List Chunk → Bool
unfolding any_tail
match_chunks [] key = is_empty key
match_chunks (p ∷ ps) key =
    let rest = match_chunks ps in
    if bytes_eq p double_star
    then is_empty ps || any_tail rest key
    else if bytes_eq p star
    then on_chunk key (λ k ks. rest ks)
    else on_chunk key (λ k ks. bytes_eq p k && rest ks)

-- strings.TrimLeft(s, "/")
unfoldable pub trim_left : List ℕ → List ℕ
trim_left [] = []
trim_left (c ∷ s) = if c == b'/' then trim_left s else c ∷ s

-- strings.Trim(s, "/")
unfoldable pub trim : List ℕ → List ℕ
unfolding trim_left
trim s = reverse (trim_left (reverse (trim_left s)))

abbrev add_byte : ℕ → List Chunk → List Chunk
add_byte c [] = (c ∷ []) ∷ []
add_byte c (w ∷ ws) = (c ∷ w) ∷ ws

-- strings.Split(s, "/")
unfoldable pub split : List ℕ → List Chunk
split [] = [] ∷ []
split (c ∷ s) = if c == b'/' then [] ∷ split s else add_byte c (split s)

abbrev split_trimmed : List ℕ → List Chunk
split_trimmed [] = []
split_trimmed (c ∷ s) = split (c ∷ s)

unfoldable pub split_key : List ℕ → List Chunk
unfolding trim split
split_key s = split_trimmed (trim s)

unfoldable pub match_key : List ℕ → List ℕ → Bool
unfolding match_chunks split_key
match_key expr key = match_chunks (split_key expr) (split_key key)
