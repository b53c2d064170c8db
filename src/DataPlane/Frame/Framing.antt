-- ===== src/DataPlane/Frame/Framing.antt =====
-- daemon/dataplane/frame.go: a header, written and read back.
use cerberus.Base.{
  ℕ, ◌≤◌, ◌<◌, ◌||◌, ◌≡◌, refl, sym, ap, ◌∙◌, inl, inr, Bool, false, List, [], ◌∷◌, ◌++◌, some, ok,
  ltb, leb, ◌==◌, length, take, drop, arith, Bool-cases, take-length, drop-length, take-drop,
  take-append_within, length-drop, drop-append_within,
}
use cerberus.DataPlane.Stream.{Bytes, Source, put_back, joined, joined-put_back, payload, write}
use cerberus.DataPlane.Frame.{Header, Json, max_header_len, read_full, read_header, write_header}
use cerberus.Auth.Envelope.{u32_bytes}
use cerberus.Auth.Envelope.Decoder.{big_endian}
use cerberus.Auth.Envelope.Reads.{u32_of}

-- The bytes come first, and what follows them is what is left.
pub record Filled (n : ℕ) (cs : List Bytes) (b : Bool) (bs rest : Bytes) : Type 0 where
  pub left : Source
  pub filled : read_full n cs b ≡ some (bs, left)
  pub same_rest : payload left ≡ rest

-- A buffer is filled with the first bytes of the stream, however it is cut into chunks.
read_full-Filled :
    (cs : List Bytes) (b : Bool) (bs rest : Bytes)
    → joined cs ≡ bs ++ rest
    → Filled (length bs) cs b bs rest
unfolding read_full joined
read_full-Filled [] b [] rest e = record {
  left = record { chunks = []; broken = b };
  filled = refl;
  same_rest = e;
}
read_full-Filled [] b (x ∷ bs) rest e = cc
read_full-Filled (c ∷ cs) b bs rest e = elim (Bool-cases (leb (length bs) (length c))) [
  | inl q ↦
      let n : ℕ = length bs in
      let fits : n ≤ length c = ground arith in
      let front : take n c ≡ bs =
        sym (take-append_within n c (joined cs) fits)
        ∙ ap (λ l. take n l) e
        ∙ take-length bs rest in
      let back : drop n c ++ joined cs ≡ rest =
        sym (drop-append_within n c (joined cs) fits)
        ∙ ap (λ l. drop n l) e
        ∙ drop-length bs rest in
      record {
        left = record { chunks = put_back (drop n c) cs; broken = b };
        filled = rw (q, front) refl;
        same_rest = joined-put_back (drop n c) cs ∙ back;
      }
  | inr q ↦
      let k : ℕ = length c in
      let more : k ≤ length bs = ground arith in
      let front : c ≡ take k bs =
        sym (take-length c (joined cs))
        ∙ ap (λ l. take k l) e
        ∙ take-append_within k bs rest more in
      let back : joined cs ≡ drop k bs ++ rest =
        sym (drop-length c (joined cs))
        ∙ ap (λ l. drop k l) e
        ∙ drop-append_within k bs rest more in
      let ih = read_full-Filled cs b (drop k bs) rest back in
      let whole : c ++ drop k bs ≡ bs = ap (λ l. l ++ drop k bs) front ∙ take-drop k bs in
      record {
        left = ih.left;
        filled = rw (q, sym (length-drop k bs), ih.filled, whole) refl;
        same_rest = ih.same_rest;
      }
]

-- What the header's frame and its payload are on the wire.
abbrev pub on_wire : Bytes → Bytes → Bytes
on_wire b rest = u32_bytes (length b) ++ (b ++ rest)

-- JSON gives back what it has written. Of encoding/json this holds for headers whose text is valid
-- UTF-8, since it replaces other bytes.
pub record JsonLaws (json : Json) : Type 0 where
  pub unmarshal_marshal :
      (h : Header) (b : Bytes) → json.marshal h ≡ some b → json.unmarshal b ≡ some h

-- The header is read back, and the payload is untouched.
pub record ReadBack (json : Json) (h : Header) (src : Source) (rest : Bytes) : Type 0 where
  pub left : Source
  pub header_read : read_header json src ≡ ok (h, left)
  pub payload_left : payload left ≡ rest

-- A header of 1 to 65,536 bytes is written after its length, and whoever reads a stream that starts
-- with these bytes, however it is cut into chunks, gets the header and has just the payload left.
pub read_header-write_header :
    (json : Json) (h : Header) (b rest old : Bytes) (src : Source)
    → JsonLaws json
    → json.marshal h ≡ some b
    → 0 < length b
    → length b ≤ max_header_len
    → payload src ≡ on_wire b rest
    → (write_header json h (record { written = old; faults = [] })
        ≡ (ok tt, record { written = (old ++ u32_bytes (length b)) ++ b; faults = [] }))
      × ReadBack json h src rest
unfolding write_header write read_header
read_header-write_header json h b rest old src laws m pos small e =
    let n : big_endian 0 (u32_bytes (length b)) ≡ length b = u32_of (length b) (omega arith) in
    let over : ltb max_header_len (length b) ≡ false = ground arith in
    let good : length b == 0 || ltb max_header_len (length b) ≡ false = ground arith in
    let lp = read_full-Filled src.chunks src.broken (u32_bytes (length b)) (b ++ rest) e in
    let body = read_full-Filled lp.left.chunks lp.left.broken b rest lp.same_rest in
    (
      rw (m, over) refl,
      record {
        left = body.left;
        header_read = rw (lp.filled, n, good, body.filled, laws.unmarshal_marshal h b m) refl;
        payload_left = body.same_rest;
      },
    )
