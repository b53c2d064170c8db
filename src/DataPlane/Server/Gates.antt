-- ===== src/DataPlane/Server/Gates.antt =====
-- daemon/dataplane/server.go: what `handleStream` asks before a payload byte is read.
use cerberus.Base.{
  ◌+◌, ◌^◌, ◌≤◌, ◌<◌, ◌≡◌, ◌≢◌, ◌⊎◌, inl, inr, refl, sym, ap, ◌∙◌, subst, true, false, [], ◌++◌,
  Option, none, some, ok, ltb, ◌==◌, length, arith, Bool-cases,
}
use cerberus.DataPlane.Stream.{Bytes, Source, ReadEnd, eof, payload}
use cerberus.DataPlane.Frame.{Header, not_empty}
use cerberus.DataPlane.Server.{
  TransferGrant, Server, Sink, ack_ok, Outcome, record_client, consume, guarded, acked, deliver,
  kernel_gate, read_request, after_signed, denied_or, signed_gate, grant_gate, handle_stream,
  QuotaReader,
}
use cerberus.DataPlane.Server.Guard.{FullChunks, consume-Bounded}

module _ {E : Type 0} (s : Server E) (h : Header) where
  -- The signed envelope of the header passes the verifier, where one is set.
  abbrev pub SignedPasses : Option (Bytes → Bytes → Option E) → Type 0
  SignedPasses none = Unit
  SignedPasses (some verify) =
      (not_empty h.signed_cap ≡ true) × (verify h.signed_cap h.issuer ≡ none)

  -- All that stands between a header and its payload.
  pub record Authorized (g : TransferGrant) : Type 0 where
    pub granted : s.grants h.transfer_id ≡ some g
    pub same_cap : g.cap ≡ h.cap
    pub signed : SignedPasses s.verify_cap
    pub allowed : s.kernel.verify g.cap read_request s.now ≡ none
    pub within : h.length ≤ g.quota.bytes

  -- A refusal reads no byte and changes nothing.
  abbrev pub Refused : Outcome E → Type 0
  Refused r = (r.0 ≢ ack_ok) × (r.1 ≡ s) × (r.2 ≡ [])

  module _ (client : Bytes) (sink : Sink) (src : Source) where
    -- A transfer is refused, or authorized and delivered.
    abbrev pub Gated : Outcome E → Type 0
    Gated r = Refused r ⊎ ((g : TransferGrant) × Authorized g × (r ≡ deliver s g h client sink src))

    kernel_gate-Gated :
        (g : TransferGrant)
        → s.grants h.transfer_id ≡ some g
        → g.cap ≡ h.cap
        → SignedPasses s.verify_cap
        → (o : Option E) → s.kernel.verify g.cap read_request s.now ≡ o
        → Gated (kernel_gate o s g h client sink src)
    kernel_gate-Gated g e c p (some x) k = inl (λ a. cc, refl, refl)
    kernel_gate-Gated g e c p none k = elim (Bool-cases (ltb g.quota.bytes h.length)) [
      | inl q ↦ rw q (inl (λ a. cc, refl, refl))
      | inr q ↦ rw q (
          inr (
            g,
            record { granted = e; same_cap = c; signed = p; allowed = k; within = ground arith },
            refl,
          ))
    ]

    signed_gate-Gated :
        (g : TransferGrant)
        → s.grants h.transfer_id ≡ some g
        → g.cap ≡ h.cap
        → (o : Option (Bytes → Bytes → Option E)) → s.verify_cap ≡ o
        → Gated (signed_gate o s g h client sink src)
    signed_gate-Gated g e c none v =
        kernel_gate-Gated g e c (rw v tt) (s.kernel.verify g.cap read_request s.now) refl
    signed_gate-Gated g e c (some verify) v = elim (Bool-cases (not_empty h.signed_cap)) [
      | inl q ↦ rw q (passed q (verify h.signed_cap h.issuer) refl)
      | inr q ↦ rw q (inl (λ a. cc, refl, refl))
    ]
      where
        passed :
            not_empty h.signed_cap ≡ true
            → (o : Option E) → verify h.signed_cap h.issuer ≡ o
            → Gated (denied_or o s g h client sink src)
        passed q (some x) k = inl (λ a. cc, refl, refl)
        passed q none k =
            kernel_gate-Gated g e c (rw v (q, k)) (s.kernel.verify g.cap read_request s.now) refl

    handle_stream-Gated : Gated (handle_stream s (ok (h, src)) client sink)
    unfolding handle_stream
    handle_stream-Gated = body (s.grants h.transfer_id) refl
      where
        body :
            (o : Option TransferGrant)
            → s.grants h.transfer_id ≡ o
            → Gated (grant_gate o s h client sink src)
        body none e = inl (λ a. cc, refl, refl)
        body (some g) e = elim (Bool-cases (g.cap == h.cap)) [
          | inl q ↦ rw q (signed_gate-Gated g e (ground arith) s.verify_cap refl)
          | inr q ↦ rw q (inl (λ a. cc, refl, refl))
        ]

    acked_got :
        (s' : Server E) (r : Bytes × ReadEnd × QuotaReader)
        → ((acked s' sink r).1 ≡ s') × ((acked s' sink r).2 ≡ r.0)
    acked_got s' (got, end, q) = elim (Bool-cases (sink.fails got end)) [
      | inl f ↦ rw f (refl, refl)
      | inr f ↦ elim (Bool-cases q.overran) [
        | inl o ↦ rw (f, o) (refl, refl)
        | inr o ↦ rw (f, o) (refl, refl)
      ]
    ]

-- What holds of a stream that was not refused.
pub record Received {E : Type 0} (s : Server E) (h : Header) (client : Bytes) (sink : Sink)
    (src : Source) (r : Outcome E) : Type 0 where
  pub grant : TransferGrant
  pub authorized : Authorized s h grant
  pub client_known : r.1 ≡ record_client h.transfer_id client s
  pub rest : Bytes
  pub beginning : r.2 ++ rest ≡ payload src
  pub in_quota : length r.2 ≤ grant.quota.bytes
  pub whole : (consume sink.sizes (guarded grant.quota.bytes src)).1 ≡ eof → r.2 ≡ payload src

deliver-Received :
    {E : Type 0} (s : Server E) (h : Header) (client : Bytes) (sink : Sink) (src : Source)
    (g : TransferGrant)
    → Authorized s h g
    → g.quota.bytes + 1 < 2 ^ 63
    → FullChunks src.chunks
    → Received s h client sink src (deliver s g h client sink src)
deliver-Received s h client sink src g a small f =
    let q : QuotaReader = guarded g.quota.bytes src in
    let b = consume-Bounded sink.sizes g.quota.bytes src small f in
    let (kept, got) =
      acked_got s h client sink src (record_client h.transfer_id client s) (consume sink.sizes q) in
    record {
      grant = g;
      authorized = a;
      client_known = kept;
      rest = b.rest;
      beginning = ap (λ l. l ++ b.rest) got ∙ b.prefix;
      in_quota = omega (arith, ap length got, b.bounded);
      whole = λ e. got ∙ b.complete e;
    }

-- A transfer is either refused, with no byte read and no change, or the grant with its capability is
-- registered, the signed envelope passes, the kernel allows it and its declared length is within the
-- quota. Then the client is recorded for it, and the sink gets a beginning of the stream within the
-- quota, which is the whole stream if the sink read up to a clean end. The quota is below 2^63 - 1,
-- and no chunk of the stream is empty.
pub handle_stream-Received :
    {E : Type 0} (s : Server E) (h : Header) (client : Bytes) (sink : Sink) (src : Source)
    → ((g : TransferGrant) → s.grants h.transfer_id ≡ some g → g.quota.bytes + 1 < 2 ^ 63)
    → FullChunks src.chunks
    → Refused s h (handle_stream s (ok (h, src)) client sink)
      ⊎ Received s h client sink src (handle_stream s (ok (h, src)) client sink)
handle_stream-Received s h client sink src small f =
    elim (handle_stream-Gated s h client sink src) [
      | inl r ↦ inl r
      | inr (g, a, e) ↦ inr (
          subst (Received s h client sink src) (sym e)
            (deliver-Received s h client sink src g a (small g a.granted) f))
    ]

signed_gate_open :
    {E : Type 0} (s : Server E) (h : Header) (client : Bytes) (sink : Sink) (src : Source)
    (g : TransferGrant) (o : Option (Bytes → Bytes → Option E))
    → SignedPasses s h o
    → signed_gate o s g h client sink src ≡ after_signed s g h client sink src
signed_gate_open s h client sink src g none p = refl
signed_gate_open s h client sink src g (some verify) p = rw (p.0, p.1) refl

-- What is authorized is delivered.
pub Authorized-deliver :
    {E : Type 0} (s : Server E) (h : Header) (client : Bytes) (sink : Sink) (src : Source)
    (g : TransferGrant)
    → Authorized s h g
    → handle_stream s (ok (h, src)) client sink ≡ deliver s g h client sink src
unfolding handle_stream
Authorized-deliver s h client sink src g a =
    let same : g.cap == h.cap ≡ true = ground (arith, a.same_cap) in
    let within : ltb g.quota.bytes h.length ≡ false = ground (arith, a.within) in
    let passed : after_signed s g h client sink src ≡ deliver s g h client sink src =
      rw (a.allowed, within) refl in
    let opened : grant_gate (some g) s h client sink src ≡ deliver s g h client sink src =
      rw same (signed_gate_open s h client sink src g s.verify_cap a.signed ∙ passed) in
    ap (λ o. grant_gate o s h client sink src) a.granted ∙ opened
