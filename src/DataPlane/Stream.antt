-- ===== src/DataPlane/Stream.antt =====
-- What daemon/dataplane takes of io.Reader and io.Writer: explicit sequences of what a read yields
-- and of which writes fail.
use cerberus.Base.{
  ℕ, ◌≡◌, refl, ap, ◌∙◌, sym, Bool, true, false, List, [], ◌∷◌, ◌++◌, take, drop, if◌then◌else◌,
  take-drop,
}
use mathlib.Core.List.{append_assoc}

abbrev pub Bytes : Type 0
Bytes = List ℕ

-- The chunks that arrive one by one, and whether the stream then fails or ends.
pub record Source : Type 0 where
  pub chunks : List Bytes
  pub broken : Bool

pub data ReadEnd : Type 0 where
  more eof read_error : ReadEnd

abbrev pub put_back : Bytes → List Bytes → List Bytes
put_back [] cs = cs
put_back (b ∷ c) cs = (b ∷ c) ∷ cs

-- `r.Read(p)` with a buffer of n bytes: at most n bytes of the first chunk. A reader of this kind
-- gives its end or its error in a read of its own, never together with bytes.
abbrev read_chunks : ℕ → List Bytes → Bool → Bytes × ReadEnd × Source
read_chunks n [] b = ([], (if b then read_error else eof), record { chunks = []; broken = b })
read_chunks n (c ∷ cs) b = (take n c, more, record { chunks = put_back (drop n c) cs; broken = b })

unfoldable pub read : ℕ → Source → Bytes × ReadEnd × Source
read n s = read_chunks n s.chunks s.broken

-- What a writer has taken, and which of its next writes fail.
pub record Writer : Type 0 where
  pub written : Bytes
  pub faults : List Bool

abbrev write_next : Bytes → Bytes → List Bool → Bool × Writer
write_next bs old [] = (true, record { written = old ++ bs; faults = [] })
write_next bs old (true ∷ fs) = (false, record { written = old; faults = fs })
write_next bs old (false ∷ fs) = (true, record { written = old ++ bs; faults = fs })

-- `w.Write(p)`: whether it went well.
unfoldable pub write : Bytes → Writer → Bool × Writer
write bs w = write_next bs w.written w.faults

-- All that is still to come.
unfoldable pub joined : List Bytes → Bytes
joined [] = []
joined (c ∷ cs) = c ++ joined cs

abbrev pub payload : Source → Bytes
payload s = joined s.chunks

pub joined-put_back : (c : Bytes) (cs : List Bytes) → joined (put_back c cs) ≡ c ++ joined cs
unfolding joined
joined-put_back [] cs = refl
joined-put_back (b ∷ c) cs = refl

-- A read loses nothing.
pub read-payload : (n : ℕ) (s : Source) → (read n s).0 ++ payload (read n s).2 ≡ payload s
unfolding read joined
read-payload n s = body s.chunks s.broken
  where
    body :
        (cs : List Bytes) (b : Bool)
        → (read_chunks n cs b).0 ++ payload (read_chunks n cs b).2 ≡ joined cs
    body [] b = refl
    body (c ∷ cs) b =
        ap (λ x. take n c ++ x) (joined-put_back (drop n c) cs)
        ∙ sym (append_assoc (take n c) (drop n c) (joined cs))
        ∙ ap (λ x. x ++ joined cs) (take-drop n c)
