-- ===== src/Lib.antt =====
-- A model of the Cerberus daemon's own logic, package by package, with theorems on what the
-- packages do. Paths are from the repository's root.
--
-- Parts and how they interact. daemon/store keeps bytes under keys in buckets, in transactions
-- that may fail. daemon/ledger keeps its UTXOs, claims, counters and transaction log in one bucket
-- of it. daemon/auth issues, narrows and verifies grants of capabilities, which travel as signed
-- envelopes and which every other node checks against its own set of revoked ids; the same package
-- hands out bearer tokens and gossips their revocation. daemon/economy opens a settlement on the
-- ledger for each completed task, and finalizes it at the ledger's height. daemon/scheduler places
-- tasks on the nodes that telemetry describes and routes around lost ones. daemon/lifecycle turns
-- power events into a checkpoint of state and a hand-back of capabilities before sleep.
-- daemon/mesh routes by key expressions. daemon/dataplane moves bulk payloads behind the gates of
-- a grant and its byte quota, which the capability kernel and a signed envelope guard. daemon/dfs
-- cuts files into chunks and erasure codes them into shards that their hashes address.
-- daemon/ninep shows devices and files as one namespace, asks the capability kernel at every
-- device and file, and hands out endpoints of the data plane. daemon/state keeps replicated
-- documents, each key the concurrent writes that none supersedes, and lists the keys whose writes
-- contradict each other.
--
-- Files. Base: shared names, tests on numbers, lists. Store: daemon/store/store.go, with the
-- entries of one bucket in Store/Bucket and sums over a snapshot of the keys in Store/Sums.
-- Ledger/Types: the structs of daemon/ledger, the keys and what values were marshalled from.
-- Ledger/Monad: a method that may fail and keeps what it wrote. Ledger/Utxos: ledger.go (Open,
-- Mint, Settle, Balance, AdvanceBlock). Ledger/Settlement: settlement.go (OpenOptimistic,
-- Finalize, Challenge and their helpers). Ledger/TxLog: txlog.go. The other files below Ledger
-- hold proofs: Live (the methods on an open store as functions on entries), Amounts and Sound
-- (sums and well-formedness), Payment, Escrow, Release, Claims, Finalize, Challenge, Bond,
-- Opening, Refusals, Totals, Faults, Restart, Height. Auth/Grant: daemon/auth/signedcap.go (Grant,
-- checkNarrower and its helpers, Issue, IssueAttenuated, Verify, VerifyChild), with proofs on
-- paths in Auth/Grant/Paths, on the narrowing check in Auth/Grant/Narrow, on Verify in
-- Auth/Grant/Verify, on chains of delegations in Auth/Grant/Chain and on colliding caveats in
-- Auth/Grant/Caveats. Auth/Envelope: the canonical bytes, the envelope, and Issue,
-- IssueAttenuated, Verify and VerifyChild on it, of the same file, with its decoder in
-- Auth/Envelope/Decoder and proofs on the order of caveats in Auth/Envelope/Order, on each reader
-- in Auth/Envelope/Reads, on the round trip in Auth/Envelope/Canonical on Verify in
-- Auth/Envelope/Accept and on delegation over the wire in Auth/Envelope/Issued. Auth/Token:
-- daemon/auth/auth.go (Issuer), with proofs on the wire form in Auth/Token/Wire, on Authorize in
-- Auth/Token/Check, on Attenuate in Auth/Token/Widen and on revocation in Auth/Token/Revoked;
-- Auth/Token/Stored: the daemon's backend of revocations, of cmd/cerberusd/main.go. Auth/Gossip:
-- daemon/auth/gossip.go, with Auth/Gossip/Union. Scheduler: daemon/scheduler/scheduler.go, with
-- proofs in Scheduler/Rank, Best, Apart, Pipeline, Reroute, Steps and Loss. Lifecycle:
-- daemon/lifecycle/lifecycle.go, with proofs in Lifecycle/Latch, Sleep and Stalled. Economy:
-- daemon/economy/settle.go, with Economy/Paid. Contract: the capability kernel's interface of
-- contract/go. DataPlane/Stream: the readers and writers that the data plane is given.
-- DataPlane/Frame: daemon/dataplane/frame.go, with proofs on the header in DataPlane/Frame/Framing
-- and on the copy in DataPlane/Frame/Copy and Stall. DataPlane/Server: daemon/dataplane/server.go,
-- with proofs on the counting reader in DataPlane/Server/Guard, on the gates in
-- DataPlane/Server/Gates and on large quotas in DataPlane/Server/Huge. Dfs: daemon/dfs/dfs.go,
-- with what is assumed of the coder in Dfs/Shards and proofs on Get in Dfs/Recover, on Put in
-- Dfs/Written, on both in Dfs/Stored and on equal shards in Dfs/Shared. Ninep/Path: paths as
-- bytes. Ninep/Server and Ninep/Listing: daemon/ninep/ninep.go, Ninep/Files: daemon/ninep/fs.go,
-- Ninep/Wire: daemon/ninep/wire.go, with proofs on the owner of a path in Ninep/Owner, on opening
-- in Ninep/Gates, on walking in Ninep/Walk and on listings in Ninep/Leak. Mesh/KeyExpr:
-- daemon/mesh/keyexpr.go, with Mesh/KeyExpr/Laws for its proofs. State/Clock and State/Register:
-- daemon/state/state.go (vclock, dot, mvEntry.absorb), State/Resolve: Resolve of the same file,
-- the rest of the engine in State/Engine, its two buckets in State/Engine/Disk, Open of the same
-- file in State/Engine/Load, with proofs on the open conflicts in State/Engine/Open, on what is
-- stored in State/Engine/Durable and on reopening in State/Engine/Restart, and on the rest in
-- State/Clock/Ahead, State/Resolve/Collapse, State/Clock/Order, State/Register/Antichain and
-- State/Register/Complete.
--
-- Bounds and fuel. Every uint64 operation of the source that can wrap is written modulo 2^64, and
-- the theorems that need room below the end of a counter say so. Loops over keys recur on the list
-- of keys. A uint64 is printed in 20 steps, as it has 20 digits at most. The loop of copyQuota
-- recurs on fuel, and one round more than its stream has bytes and chunks is enough; the loop of
-- Put recurs on the number of bytes, of which each round takes at least one. The clock and a
-- grant's window are integers and are only compared; as int64 values they are put on the wire in
-- two's complement. The decoder's loops over counts of 32 bits recur on the count and stop at the
-- first overrun, as the source's do. The scheduler's and the monitor's runs are lists of calls and
-- events of any length.
--
-- Not modelled. bbolt, libp2p, QUIC, Ed25519 and JSON are outside the repository or the language's
-- library: a store transaction succeeds or fails as a list of outcomes says, and a marshalled
-- value is read back as what it was. For tokens and grants, JSON, base64 and the signature scheme
-- are parameters with their documented laws. The scheduler's cost model and the monitor's
-- temperature readings, which compute with floating point, are parameters too, and so are the
-- engine and the coordinator behind the monitor. Of the data plane, QUIC connections and
-- certificates are left out; the Reed-Solomon coder and the hash of the file store are parameters,
-- and no two byte strings are taken to hash alike. JSON is taken to give back what it wrote, which
-- holds for text that is valid UTF-8. A stream gives its end or its error in a read of its own.
-- Listeners of the lifecycle monitor only record what they hear, and do not call back into it.
-- Locks are not modelled: each method is one step. Operating-system glue (audio devices, power
-- events, mounts, FFI), the command-line tools and the RPC edges only pass calls on, and are left
-- out.
pub mod Base
pub mod Store
pub mod Ledger
pub mod Mesh
pub mod Auth
pub mod State
pub mod Scheduler
pub mod Lifecycle
pub mod Contract
pub mod DataPlane
pub mod Dfs
pub mod Ninep
pub mod Economy
