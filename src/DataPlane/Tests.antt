-- ===== src/DataPlane/Tests.antt =====
-- daemon/dataplane: a transfer in two chunks, and the theorems at it.
use cerberus.Base.{
  ℕ, ◌+◌, ◌-◌, ◌^◌, ◌≡◌, ◌⊎◌, refl, true, false, Bool, [], ◌∷◌, ◌++◌, Option, none, some, ok,
  length, arith, ◌<◌, take, drop, take-length, drop-length, subst,
}
use mathlib.Core.Option.{some_inj}
use cerberus.Base.Bytes.{codes}
use cerberus.Base.Int.{pos}
use cerberus.Auth.Envelope.{u32_bytes}
use cerberus.Auth.Grant.{Quota}
use cerberus.DataPlane.Stream.{Bytes, Source, ReadEnd, eof, Writer, read, write, joined}
use cerberus.DataPlane.Frame.{
  Header, Json, Copied, want, copy_round, quota_exceeded, copy_loop, copy_quota, write_header,
}
use cerberus.DataPlane.Frame.Framing.{JsonLaws, ReadBack, read_header-write_header}
use cerberus.DataPlane.Frame.Copy.{rounds, copy_quota_exact}
use cerberus.DataPlane.Frame.Stall.{copy_quota_stalls}
use cerberus.DataPlane.Server.{
  TransferGrant, Server, Sink, ack_ok, record_client, consume, quota_read, handle_stream,
  register_grant,
}
use cerberus.DataPlane.Server.Guard.{FullChunks}
use cerberus.DataPlane.Server.Gates.{Refused, Received, handle_stream-Received}
use cerberus.DataPlane.Server.Huge.{huge_quota_loses}

abbrev not_eof : ReadEnd → Bool
not_eof eof = false
not_eof _ = true

abbrev hello : Source
hello = record { chunks = codes "hel" ∷ codes "lo" ∷ []; broken = false }

abbrev empty_writer : Writer
empty_writer = record { written = []; faults = [] }

-- Four bytes are within the quota, and the fifth is an overrun.
cut_short :
    copy_quota 9 empty_writer hello 4
    ≡ some (4, quota_exceeded, record { written = codes "hell"; faults = [] })
unfolding copy_loop read write
cut_short = refl

copy_quota_exact_example :
    copy_quota 9 empty_writer hello 4
    ≡ some (4, quota_exceeded, record { written = codes "hell"; faults = [] })
unfolding joined
copy_quota_exact_example =
    copy_quota_exact 9 4 hello [] (omega arith) (unfold rounds joined in omega arith)

-- The rounds that follow, a hundred of them at most.
abbrev rounds_after : ℕ → Writer → Source → Option Copied
rounds_after total dst src = copy_loop 100 (2 ^ 64 - 1) total dst src

copy_quota_stalls_example :
    (copy_round rounds_after (2 ^ 64 - 1) 0 empty_writer (read (want (2 ^ 64 - 1) 0) hello)
      ≡ rounds_after 0 empty_writer hello)
    × (copy_quota 100 empty_writer hello (2 ^ 64 - 1) ≡ none)
copy_quota_stalls_example =
    copy_quota_stalls 100 b'h' (codes "el") (codes "lo" ∷ []) false empty_writer rounds_after

-- The header of transfer 7, and a JSON that knows it.
abbrev seven : Header
seven = record { transfer_id = 7; cap = 3; length = 5; signed_cap = []; issuer = [] }

-- The numbers of a header, its envelope's length among them.
abbrev put_header : Header → Option Bytes
put_header h =
    some (h.transfer_id ∷ h.cap ∷ h.length ∷ length h.signed_cap ∷ (h.signed_cap ++ h.issuer))

abbrev get_header : Bytes → Option Header
get_header (i ∷ c ∷ l ∷ n ∷ bs) =
    some
      (record { transfer_id = i; cap = c; length = l; signed_cap = take n bs; issuer = drop n bs })
get_header _ = none

abbrev toy_json : Json
toy_json = record { marshal = put_header; unmarshal = get_header }

toy_json-JsonLaws : JsonLaws toy_json
toy_json-JsonLaws = record {
  unmarshal_marshal = λ h b e.
      subst (λ x. get_header x ≡ some h) (some_inj.0 e)
        (rw (take-length h.signed_cap h.issuer, drop-length h.signed_cap h.issuer) refl);
}

abbrev seven_bytes : Bytes
seven_bytes = 7 ∷ 3 ∷ 5 ∷ 0 ∷ []

-- The frame of `seven` and five bytes of payload, cut in the middle of the length.
abbrev wire : Source
wire = record {
  chunks = (0 ∷ 0 ∷ []) ∷ (0 ∷ 4 ∷ 7 ∷ 3 ∷ []) ∷ (5 ∷ 0 ∷ codes "hel") ∷ codes "lo" ∷ [];
  broken = false;
}

read_header-write_header_example :
    (write_header toy_json seven empty_writer
      ≡ (ok tt, record { written = ([] ++ u32_bytes 4) ++ seven_bytes; faults = [] }))
    × ReadBack toy_json seven wire (codes "hello")
unfolding joined
read_header-write_header_example =
    read_header-write_header toy_json seven seven_bytes (codes "hello") [] wire toy_json-JsonLaws
      refl (omega arith) (omega arith) refl

abbrev quota_of : ℕ → Quota
quota_of n = record { bytes = n; flops = 0; secs = 0 }

abbrev receiver : ℕ → Server ℕ
receiver n = register_grant 7 3 (quota_of n) (record {
  kernel = record { verify = λ cap request now. none };
  verify_cap = none;
  now = pos 0;
  grants = λ id. none;
  auth_by = λ id. none;
})

-- A sink that reads by four bytes, and fails unless it comes to a clean end.
abbrev sink : Sink
sink = record { sizes = 4 ∷ 4 ∷ 4 ∷ 4 ∷ []; fails = λ got end. not_eof end }

all_received :
    handle_stream (receiver 5) (ok (seven, hello)) (codes "peer") sink
    ≡ (ack_ok, record_client 7 (codes "peer") (receiver 5), codes "hello")
unfolding handle_stream consume quota_read read
all_received = refl

hello-FullChunks : FullChunks hello.chunks
unfolding FullChunks
hello-FullChunks = (omega arith, (omega arith, tt))

only_seven : (g : TransferGrant) → (receiver 5).grants 7 ≡ some g → g.quota.bytes + 1 < 2 ^ 63
only_seven g e = subst (λ k. k.quota.bytes + 1 < 2 ^ 63) (some_inj.0 e) (omega arith)

handle_stream-Received_example :
    Refused (receiver 5) seven (handle_stream (receiver 5) (ok (seven, hello)) (codes "peer") sink)
    ⊎ Received
        (receiver 5)
        seven
        (codes "peer")
        sink
        hello
        (handle_stream (receiver 5) (ok (seven, hello)) (codes "peer") sink)
handle_stream-Received_example =
    handle_stream-Received (receiver 5) seven (codes "peer") sink hello only_seven hello-FullChunks

huge_quota_loses_example :
    handle_stream (receiver (2 ^ 63)) (ok (seven, hello)) (codes "peer") sink
    ≡ (ack_ok, record_client 7 (codes "peer") (receiver (2 ^ 63)), [])
huge_quota_loses_example =
    huge_quota_loses (receiver (2 ^ 63)) seven (codes "peer") 4 (4 ∷ 4 ∷ 4 ∷ [])
      (λ got end. not_eof end) hello (record { cap = 3; quota = quota_of (2 ^ 63) })
      (record {
        granted = refl;
        same_cap = refl;
        signed = tt;
        allowed = refl;
        within = omega arith;
      })
      (omega arith) (omega arith) refl
