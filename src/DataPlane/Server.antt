-- ===== src/DataPlane/Server.antt =====
-- daemon/dataplane/server.go: the grants of a receiver, the gates in front of a payload, and the
-- reader that bounds it. A sink is the sizes of its reads and the error that it makes of what it got.
pub mod Guard
pub mod Gates
pub mod Huge
use cerberus.Base.{
  ℕ, zero, suc, ◌+◌, ◌-◌, ◌%◌, ◌^◌, Bool, true, false, not, ◌||◌, List, [], ◌∷◌, ◌++◌, Option, none,
  some, Result, ok, err, ltb, leb, ◌==◌, length, if◌then◌else◌, u64_mod,
}
use cerberus.Base.Bytes.{codes}
use cerberus.Base.Int.{ℤ, pos_part}
use cerberus.Contract.{CapKernel, Request}
use cerberus.Auth.Grant.{Quota}
use cerberus.Auth.Envelope.Decoder.{int64_of}
use cerberus.DataPlane.Stream.{Bytes, Source, ReadEnd, more, eof, read_error, read}
use cerberus.DataPlane.Frame.{Header, FrameError, not_empty}

pub record TransferGrant : Type 0 where
  pub cap : ℕ
  pub quota : Quota

pub record Server (E : Type 0) : Type 0 where
  pub kernel : CapKernel E
  pub verify_cap : Option (Bytes → Bytes → Option E)
  pub now : ℤ
  pub grants : ℕ → Option TransferGrant
  pub auth_by : ℕ → Option Bytes

abbrev pub put_at : {A : Type 0} → ℕ → A → (ℕ → Option A) → ℕ → Option A
put_at k a f j = if k == j then some a else f j

-- The grant that `RegisterSignedGrant` records.
abbrev pub register_grant : {E : Type 0} → ℕ → ℕ → Quota → Server E → Server E
register_grant id cap quota s = record s {
  grants = put_at id (record { cap = cap; quota = quota }) s.grants;
}

abbrev pub record_client : {E : Type 0} → ℕ → Bytes → Server E → Server E
record_client id client s = record s { auth_by = put_at id client s.auth_by }

pub record Sink : Type 0 where
  pub sizes : List ℕ
  pub fails : Bytes → ReadEnd → Bool

-- A quotaReader around a LimitReader; `left` is what the latter still gives.
pub record QuotaReader : Type 0 where
  pub src : Source
  pub left : ℕ
  pub limit : ℕ
  pub read_count : ℕ
  pub overran : Bool

abbrev pub min : ℕ → ℕ → ℕ
min a b = if ltb b a then b else a

abbrev limited_by : QuotaReader → Bytes × ReadEnd × Source → Bytes × ReadEnd × QuotaReader
limited_by q (bs, end, s) = (bs, end, record q { src = s; left = q.left - length bs })

-- `io.LimitReader`'s Read.
abbrev pub limited_read : ℕ → QuotaReader → Bytes × ReadEnd × QuotaReader
limited_read n q = if q.left == 0 then ([], eof, q) else limited_by q (read (min n q.left) q.src)

abbrev pub probed : Bytes × ReadEnd × QuotaReader → Bytes × ReadEnd × QuotaReader
probed (bs, end, q) =
    if not_empty bs then ([], read_error, record q { overran = true }) else ([], eof, q)

abbrev pub counted_read : Bytes × ReadEnd × QuotaReader → Bytes × ReadEnd × QuotaReader
counted_read (bs, end, q) =
    (bs, end, record q { read_count = (q.read_count + length bs) % u64_mod })

unfoldable pub quota_read : ℕ → QuotaReader → Bytes × ReadEnd × QuotaReader
quota_read n q =
    if q.overran
    then ([], read_error, q)
    else if leb q.limit q.read_count
    then probed (limited_read 1 q)
    else counted_read (limited_read (min n (q.limit - q.read_count)) q)

abbrev pub append_read : Bytes → Bytes × ReadEnd × QuotaReader → Bytes × ReadEnd × QuotaReader
append_read bs (got, end, q) = (bs ++ got, end, q)

abbrev pub consume_next :
    Bytes × ReadEnd × QuotaReader
    → (QuotaReader → Bytes × ReadEnd × QuotaReader)
    → Bytes × ReadEnd × QuotaReader
consume_next (bs, more, q) again = append_read bs (again q)
consume_next (bs, eof, q) again = (bs, eof, q)
consume_next (bs, read_error, q) again = (bs, read_error, q)

-- What a sink gets that reads with buffers of these sizes, until the reader ends.
unfoldable pub consume : List ℕ → QuotaReader → Bytes × ReadEnd × QuotaReader
consume [] q = ([], more, q)
consume (n ∷ ns) q = consume_next (quota_read n q) (λ q'. consume ns q')

-- `io.LimitReader(st, int64(quota)+1)`: the sum wraps, and a negative count gives nothing.
abbrev pub limit_count : ℕ → ℕ
limit_count quota = pos_part (int64_of ((quota + 1) % u64_mod))

abbrev pub guarded : ℕ → Source → QuotaReader
guarded quota src = record {
  src = src;
  left = limit_count quota;
  limit = quota;
  read_count = 0;
  overran = false;
}

pub data Ack (E : Type 0) : Type 0 where
  ack_ok : Ack E
  bad_header unknown_transfer no_signed_cap over_quota sink_failed overrun_recorded : Ack E
  signed_cap_denied kernel_denied : E → Ack E

-- The answer, the server afterwards, and what the sink got.
abbrev pub Outcome : Type 0 → Type 0
Outcome E = Ack E × Server E × Bytes

abbrev pub acked : {E : Type 0} → Server E → Sink → Bytes × ReadEnd × QuotaReader → Outcome E
acked s sink (got, end, q) =
    if sink.fails got end
    then (sink_failed, s, got)
    else if q.overran
    then (overrun_recorded, s, got)
    else (ack_ok, s, got)

abbrev pub deliver :
    {E : Type 0} → Server E → TransferGrant → Header → Bytes → Sink → Source → Outcome E
deliver s g h client sink src =
    acked (record_client h.transfer_id client s) sink
      (consume sink.sizes (guarded g.quota.bytes src))

abbrev pub quota_gate :
    {E : Type 0} → Server E → TransferGrant → Header → Bytes → Sink → Source → Outcome E
quota_gate s g h client sink src =
    if ltb g.quota.bytes h.length then (over_quota, s, []) else deliver s g h client sink src

abbrev pub kernel_gate :
    {E : Type 0} → Option E → Server E → TransferGrant → Header → Bytes → Sink → Source → Outcome E
kernel_gate (some e) s g h client sink src = (kernel_denied e, s, [])
kernel_gate none s g h client sink src = quota_gate s g h client sink src

abbrev pub read_request : Request
read_request = record { op = codes "read"; resource = none }

abbrev pub after_signed :
    {E : Type 0} → Server E → TransferGrant → Header → Bytes → Sink → Source → Outcome E
after_signed s g h client sink src =
    kernel_gate (s.kernel.verify g.cap read_request s.now) s g h client sink src

abbrev pub denied_or :
    {E : Type 0} → Option E → Server E → TransferGrant → Header → Bytes → Sink → Source → Outcome E
denied_or (some e) s g h client sink src = (signed_cap_denied e, s, [])
denied_or none s g h client sink src = after_signed s g h client sink src

abbrev pub signed_gate :
    {E : Type 0}
    → Option (Bytes → Bytes → Option E)
    → Server E
    → TransferGrant
    → Header
    → Bytes
    → Sink
    → Source
    → Outcome E
signed_gate none s g h client sink src = after_signed s g h client sink src
signed_gate (some verify) s g h client sink src =
    if not_empty h.signed_cap
    then denied_or (verify h.signed_cap h.issuer) s g h client sink src
    else (no_signed_cap, s, [])

abbrev pub grant_gate :
    {E : Type 0} → Option TransferGrant → Server E → Header → Bytes → Sink → Source → Outcome E
grant_gate none s h client sink src = (unknown_transfer, s, [])
grant_gate (some g) s h client sink src =
    if not (g.cap == h.cap)
    then (unknown_transfer, s, [])
    else signed_gate s.verify_cap s g h client sink src

-- `handleStream`, from what `readHeader` returned on.
unfoldable pub handle_stream :
    {E : Type 0} → Server E → Result FrameError (Header × Source) → Bytes → Sink → Outcome E
handle_stream s (err e) client sink = (bad_header, s, [])
handle_stream s (ok (h, src)) client sink = grant_gate (s.grants h.transfer_id) s h client sink src
