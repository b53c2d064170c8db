-- ===== src/Ninep/Listing.antt =====
-- daemon/ninep/ninep.go: the names below a directory.
use cerberus.Base.{ℕ, ◌||◌, List, [], ◌∷◌, ◌++◌, Option, none, some, length, drop, if◌then◌else◌}
use cerberus.Base.Bytes.{codes, bytes_eq, has_prefix}
use cerberus.Auth.Grant.{contains}
use cerberus.Ninep.Path.{Bytes, is_nil, trim_right, inside, segment, ctl, info}
use cerberus.Ninep.Server.{Server, Device, FsStore, check}

abbrev pub add : Bytes → List Bytes → List Bytes
add name out = if is_nil name || contains out name then out else out ++ (name ∷ [])

unfoldable pub add_all : List Bytes → List Bytes → List Bytes
add_all [] out = out
add_all (name ∷ names) out = add_all names (add name out)

module _ {E : Type 0} where
  -- The names that a device adds to a listing.
  abbrev pub names_of : Server E → ℕ → Bytes → Device → List Bytes
  names_of s cap dir d =
      if bytes_eq d.dir dir
      then elim (check s cap (codes "read") d.ref) [ none ↦ ctl ∷ info ∷ [] | some e ↦ [] ]
      else if has_prefix d.dir (inside dir)
      then segment (drop (length (inside dir)) d.dir) ∷ []
      else []

  unfoldable pub list_devices : Server E → ℕ → Bytes → List Device → List Bytes → List Bytes
  list_devices s cap dir [] out = out
  list_devices s cap dir (d ∷ ds) out =
      list_devices s cap dir ds (add_all (names_of s cap dir d) out)

  abbrev pub with_fs : Option (FsStore E) → Bytes → List Bytes → List Bytes
  with_fs none dir out = out
  with_fs (some store) dir out = if bytes_eq dir (codes "/cer") then add (codes "fs") out else out

  -- `ListChildren`.
  unfoldable pub list_children : Server E → Bytes → ℕ → List Bytes
  list_children s dir cap =
      with_fs s.fs (trim_right dir) (list_devices s cap (trim_right dir) s.devices [])
