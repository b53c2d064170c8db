-- ===== src/Ninep/Server.antt =====
-- daemon/ninep/ninep.go: devices and the gates of Walk, Open and ReadInfo. The map of devices is the
-- list of its entries in the order in which a loop meets them.
use cerberus.Base.{
  ℕ, ◌+◌, ◌%◌, Bool, false, not, ◌&&◌, ◌||◌, List, [], ◌∷◌, ◌++◌, Option, none, some, Result, ok,
  err, ltb, ◌==◌, length, if◌then◌else◌, u64_mod,
}
use cerberus.Base.Int.{ℤ}
use cerberus.Base.Bytes.{codes, bytes_eq, has_prefix}
use cerberus.Contract.{CapKernel}
use cerberus.Auth.Grant.{Quota, ResourceRef}
use cerberus.Auth.Envelope.Decoder.{zeros}
use cerberus.Ninep.Path.{Bytes, is_nil, trim_right, inside, trim_prefix, ctl, info}

pub record DataEndpoint : Type 0 where
  pub kind : Bytes
  pub endpoint : Bytes
  pub stream_id : ℕ
  pub quota : Quota
  pub server_peer_id : Bytes

pub record RecvEndpoint : Type 0 where
  pub kind : Bytes
  pub endpoint : Bytes
  pub stream_id : ℕ
  pub cap : ℕ
  pub quota : Quota
  pub server_peer_id : Bytes

pub record FsStore (E : Type 0) : Type 0 where
  pub begin_write : Bytes → ℕ → ℕ → Result E DataEndpoint
  pub begin_read : Bytes → ℕ → RecvEndpoint → Option E

pub record Device : Type 0 where
  pub dir : Bytes
  pub ref : ResourceRef

pub record Server (E : Type 0) : Type 0 where
  pub kernel : CapKernel E
  pub devices : List Device
  pub now : ℤ
  pub next_stream : ℕ
  pub granter : Option (ℕ → ResourceRef → ℕ → Quota → Result E DataEndpoint)
  pub fs : Option (FsStore E)

-- The errors of the package, and those that it passes on.
pub data NsError (E : Type 0) : Type 0 where
  no_such_path not_openable not_readable not_fs_path no_backend marshal_failed : NsError E
  passed_on : E → NsError E

abbrev pub put_device : Device → List Device → List Device
put_device d [] = d ∷ []
put_device d (e ∷ es) =
    let rest = put_device d es in if bytes_eq d.dir e.dir then d ∷ es else e ∷ rest

abbrev pub register : {E : Type 0} → Bytes → ResourceRef → Server E → Server E
register dir ref s = record s {
  devices = put_device (record { dir = trim_right dir; ref = ref }) s.devices;
}

abbrev pub owns : Bytes → Bytes → Bool
owns dir path = bytes_eq path dir || has_prefix path (inside dir)

-- `best`, the device found so far; the empty path stands for none.
abbrev pub best_length : Option Device → ℕ
best_length none = 0
best_length (some d) = length d.dir

abbrev pub better : Bytes → Device → Option Device → Option Device
better path d best =
    if owns d.dir path
    then (if ltb (best_length best) (length d.dir) then some d else best)
    else best

unfoldable pub longest : Bytes → List Device → Option Device → Option Device
longest path [] best = best
longest path (d ∷ ds) best = longest path ds (better path d best)

abbrev pub device_for : {E : Type 0} → Server E → Bytes → Option Device
device_for s path = longest path s.devices none

unfoldable pub any_inside : Bytes → List Device → Bool
any_inside path [] = false
any_inside path (d ∷ ds) = has_prefix d.dir (inside path) || any_inside path ds

abbrev pub is_ancestor_dir : {E : Type 0} → Server E → Bytes → Bool
is_ancestor_dir s path =
    let trimmed = trim_right path in if is_nil trimmed then false else any_inside trimmed s.devices

abbrev pub quic : Bytes
quic = codes "quic"

abbrev pub zero_quota : Quota
zero_quota = record { bytes = 0; flops = 0; secs = 0 }

abbrev quota_or_zero : Option Quota → Quota
quota_or_zero none = zero_quota
quota_or_zero (some q) = q

abbrev is_zero_quota : Quota → Bool
is_zero_quota q = q.bytes == 0 && q.flops == 0 && q.secs == 0

module _ {E : Type 0} where
  abbrev pub check : Server E → ℕ → Bytes → ResourceRef → Option E
  check s cap op ref = s.kernel.verify cap (record { op = op; resource = some ref }) s.now

  abbrev pub passed : Option E → Option (NsError E)
  passed none = none
  passed (some e) = some (passed_on e)

  abbrev pub walk_to : Server E → ℕ → Option Device → Option (NsError E)
  walk_to s cap none = some no_such_path
  walk_to s cap (some d) = passed (check s cap (codes "read") d.ref)

  -- `Walk`: `none` is no error.
  unfoldable pub walk : Server E → Bytes → ℕ → Option (NsError E)
  walk s path cap = walk_to s cap (device_for s path)

  -- The fields that a granter left empty.
  abbrev completed : ℕ → Quota → Result E DataEndpoint → Result (NsError E) DataEndpoint
  completed stream quota (err e) = err (passed_on e)
  completed stream quota (ok ep) = ok (record ep {
    kind = if is_nil ep.kind then quic else ep.kind;
    stream_id = if ep.stream_id == 0 then stream else ep.stream_id;
    quota = if is_zero_quota ep.quota then quota else ep.quota;
  })

  abbrev pub allocated :
      ℕ
      → ℕ
      → Device
      → Option (ℕ → ResourceRef → ℕ → Quota → Result E DataEndpoint)
      → Result (NsError E) DataEndpoint
  allocated stream cap d (some granter) =
      completed stream (quota_or_zero d.ref.quota)
        (granter cap d.ref stream (quota_or_zero d.ref.quota))
  allocated stream cap d none = ok (record {
    kind = quic;
    endpoint = codes "quic://" ++ trim_prefix d.dir (codes "/cer/dev/");
    stream_id = stream;
    quota = quota_or_zero d.ref.quota;
    server_peer_id = zeros 32;
  })

  abbrev pub with_stream : Server E → Server E
  with_stream s = record s { next_stream = (s.next_stream + 1) % u64_mod }

  abbrev pub open_allowed :
      Server E → ℕ → Device → Option E → Result (NsError E) DataEndpoint × Server E
  open_allowed s cap d (some e) = (err (passed_on e), s)
  open_allowed s cap d none =
      (allocated ((s.next_stream + 1) % u64_mod) cap d s.granter, with_stream s)

  abbrev pub open_device :
      Server E → Bytes → ℕ → Option Device → Result (NsError E) DataEndpoint × Server E
  open_device s path cap none = (err no_such_path, s)
  open_device s path cap (some d) =
      if not (bytes_eq path (inside d.dir ++ ctl))
      then (err not_openable, s)
      else open_allowed s cap d (check s cap (codes "alloc") d.ref)

  -- `Open`.
  unfoldable pub open_ctl : Server E → Bytes → ℕ → Result (NsError E) DataEndpoint × Server E
  open_ctl s path cap = open_device s path cap (device_for s path)

  abbrev pub marshalled : Option Bytes → Result (NsError E) Bytes
  marshalled none = err marshal_failed
  marshalled (some b) = ok b

  abbrev pub info_allowed :
      (ResourceRef → Option Bytes) → Device → Option E → Result (NsError E) Bytes
  info_allowed marshal d (some e) = err (passed_on e)
  info_allowed marshal d none = marshalled (marshal d.ref)

  abbrev pub info_device :
      (ResourceRef → Option Bytes) → Server E → Bytes → ℕ → Option Device → Result (NsError E) Bytes
  info_device marshal s path cap none = err no_such_path
  info_device marshal s path cap (some d) =
      if not (bytes_eq path (inside d.dir ++ info))
      then err not_readable
      else info_allowed marshal d (check s cap (codes "read") d.ref)

  -- `ReadInfo`; json.Marshal of kind, path and quota is a parameter.
  unfoldable pub read_info :
      (ResourceRef → Option Bytes) → Server E → Bytes → ℕ → Result (NsError E) Bytes
  read_info marshal s path cap = info_device marshal s path cap (device_for s path)
