-- ===== src/Ninep/Files.antt =====
-- daemon/ninep/fs.go: the subtree of files, behind a store of the composition layer.
use cerberus.Base.{
  ℕ, ◌+◌, ◌%◌, Bool, ◌||◌, [], ◌∷◌, ◌++◌, Option, none, some, Result, ok, err, length, drop,
  if◌then◌else◌, u64_mod,
}
use cerberus.Base.Bytes.{codes, bytes_eq, has_prefix}
use cerberus.Auth.Envelope.Decoder.{zeros}
use cerberus.Auth.Grant.{ResourceRef}
use cerberus.Ninep.Path.{Bytes, trim_right, inside}
use cerberus.Ninep.Server.{
  Server, FsStore, DataEndpoint, RecvEndpoint, NsError, not_fs_path, no_backend, passed_on, passed,
  check, with_stream,
}

abbrev pub fs_root : Bytes
fs_root = codes "/cer/fs"

abbrev pub fs_resource : Bytes → ResourceRef
fs_resource path = record { kind = codes "fs"; node = zeros 32; path = path; quota = none }

abbrev pub is_fs_path : Bytes → Bool
is_fs_path path =
    bytes_eq (trim_right path) fs_root || has_prefix (trim_right path) (inside fs_root)

abbrev pub non_empty : Bytes → Option Bytes
non_empty [] = none
non_empty (x ∷ xs) = some (x ∷ xs)

unfoldable pub fs_sub_path : Bytes → Option Bytes
fs_sub_path path =
    if has_prefix (trim_right path) (inside fs_root)
    then non_empty (drop (length (inside fs_root)) (trim_right path))
    else none

module _ {E : Type 0} where
  abbrev pub walk_sub : Server E → ℕ → Option Bytes → Option (NsError E)
  walk_sub s cap none = some not_fs_path
  walk_sub s cap (some sub) =
      passed (check s cap (codes "read") (fs_resource (inside fs_root ++ sub)))

  -- `WalkFS`.
  unfoldable pub walk_fs : Server E → Bytes → ℕ → Option (NsError E)
  walk_fs s path cap =
      if bytes_eq (trim_right path) fs_root then none else walk_sub s cap (fs_sub_path path)

  abbrev begun : Result E DataEndpoint → Result (NsError E) DataEndpoint
  begun (ok ep) = ok ep
  begun (err e) = err (passed_on e)

  abbrev pub begin_write : Option (FsStore E) → Bytes → ℕ → ℕ → Result (NsError E) DataEndpoint
  begin_write none full cap stream = err no_backend
  begin_write (some store) full cap stream = begun (store.begin_write full cap stream)

  abbrev pub write_allowed :
      Server E → Bytes → ℕ → Option E → Result (NsError E) DataEndpoint × Server E
  write_allowed s full cap (some e) = (err (passed_on e), s)
  write_allowed s full cap none =
      (begin_write s.fs full cap ((s.next_stream + 1) % u64_mod), with_stream s)

  abbrev pub write_sub : Server E → ℕ → Option Bytes → Result (NsError E) DataEndpoint × Server E
  write_sub s cap none = (err not_fs_path, s)
  write_sub s cap (some sub) =
      let full = inside fs_root ++ sub in
      write_allowed s full cap (check s cap (codes "write") (fs_resource full))

  -- `OpenFSWrite`.
  unfoldable pub open_fs_write : Server E → Bytes → ℕ → Result (NsError E) DataEndpoint × Server E
  open_fs_write s path cap = write_sub s cap (fs_sub_path path)

  abbrev begin_read : Option (FsStore E) → Bytes → ℕ → RecvEndpoint → Option (NsError E)
  begin_read none full cap recv = some no_backend
  begin_read (some store) full cap recv = passed (store.begin_read full cap recv)

  abbrev read_allowed : Server E → Bytes → ℕ → RecvEndpoint → Option E → Option (NsError E)
  read_allowed s full cap recv (some e) = some (passed_on e)
  read_allowed s full cap recv none = begin_read s.fs full cap recv

  abbrev read_sub : Server E → ℕ → RecvEndpoint → Option Bytes → Option (NsError E)
  read_sub s cap recv none = some not_fs_path
  read_sub s cap recv (some sub) =
      let full = inside fs_root ++ sub in
      read_allowed s full cap recv (check s cap (codes "read") (fs_resource full))

  -- `OpenFSRead`: `none` is no error.
  unfoldable pub open_fs_read : Server E → Bytes → ℕ → RecvEndpoint → Option (NsError E)
  open_fs_read s path cap recv = read_sub s cap recv (fs_sub_path path)
