-- ===== src/DataPlane/Server/Huge.antt =====
-- daemon/dataplane/server.go: a transfer under a quota of 2^63 - 1 bytes or more.
use cerberus.Base.{
  ℕ, ◌-◌, ◌^◌, ◌≤◌, ◌<◌, ◌≡◌, refl, ◌∙◌, Bool, false, List, [], ◌∷◌, ok, leb, u64_mod, arith,
}
use cerberus.DataPlane.Stream.{Bytes, Source, ReadEnd, eof}
use cerberus.DataPlane.Frame.{Header}
use cerberus.DataPlane.Server.Gates.{Authorized, Authorized-deliver}
use cerberus.DataPlane.Server.{
  TransferGrant, Server, ack_ok, record_client, consume, quota_read, guarded, limit_count,
  handle_stream,
}

-- The reader of such a quota ends at once.
huge_consume :
    (n : ℕ) (ns : List ℕ) (quota : ℕ) (src : Source)
    → 2 ^ 63 - 1 ≤ quota
    → quota < u64_mod
    → ((consume (n ∷ ns) (guarded quota src)).0 ≡ [])
      × ((consume (n ∷ ns) (guarded quota src)).1 ≡ eof)
      × ((consume (n ∷ ns) (guarded quota src)).2.overran ≡ false)
unfolding consume quota_read
huge_consume n ns quota src h fits =
    let none_left : limit_count quota ≡ 0 = ground arith in
    let room : leb quota 0 ≡ false = ground arith in rw (none_left, room) (refl, refl, refl)

-- A transfer that is authorized under a quota of 2^63 - 1 bytes or more loses its payload: whatever
-- the stream carries, the sink gets nothing and a clean end, and where it takes an empty payload the
-- sender is told that all went well.
pub huge_quota_loses :
    {E : Type 0} (s : Server E) (h : Header) (client : Bytes) (n : ℕ) (ns : List ℕ)
    (fails : Bytes → ReadEnd → Bool) (src : Source) (g : TransferGrant)
    → Authorized s h g
    → 2 ^ 63 - 1 ≤ g.quota.bytes
    → g.quota.bytes < u64_mod
    → fails [] eof ≡ false
    → handle_stream s (ok (h, src)) client (record { sizes = n ∷ ns; fails = fails })
      ≡ (ack_ok, record_client h.transfer_id client s, [])
huge_quota_loses s h client n ns fails src g a big fits takes =
    let (got, end, clean) = huge_consume n ns g.quota.bytes src big fits in
    Authorized-deliver s h client (record { sizes = n ∷ ns; fails = fails }) src g a
    ∙ rw (got, end, takes, clean) refl
