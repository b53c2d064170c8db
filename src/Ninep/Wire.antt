-- ===== src/Ninep/Wire.antt =====
-- daemon/ninep/wire.go: the nodes that a 9P client walks to and opens, on a connection with one capability.
use cerberus.Base.{
  ℕ, ◌+◌, Bool, true, false, not, ◌||◌, List, [], ◌∷◌, Option, none, some, Result, ok, err, leb,
  length, take, drop, if◌then◌else◌,
}
use cerberus.Base.Bytes.{codes, bytes_eq}
use cerberus.Auth.Grant.{ResourceRef}
use cerberus.Ninep.Path.{
  Bytes, is_nil, trim_right, has_slash, join_path, base_path, ctl, info, is_leaf,
}
use cerberus.Ninep.Server.{
  Server, DataEndpoint, NsError, walk, open_ctl, read_info, is_ancestor_dir,
}
use cerberus.Ninep.Files.{fs_root, is_fs_path, walk_fs, open_fs_write}

pub record Node : Type 0 where
  pub cap : ℕ
  pub path : Bytes
  pub dir : Bool
  pub fs_file : Bool
  pub contents : Bytes

-- json.Marshal of an endpoint, and of the descriptor of a resource.
pub record Json : Type 0 where
  pub endpoint : DataEndpoint → Option Bytes
  pub info : ResourceRef → Option Bytes

pub data WireError (E : Type 0) : Type 0 where
  invalid_name is_directory needs_receiver not_a_leaf io_failed : WireError E
  refused : NsError E → WireError E

-- `Attach`.
abbrev pub root_node : ℕ → Node
root_node cap = record {
  cap = cap;
  path = codes "/cer";
  dir = true;
  fs_file = false;
  contents = [];
}

abbrev pub reached : Node → Bytes → Bool → Bool → Node
reached n path dir fs_file = record {
  cap = n.cap;
  path = path;
  dir = dir;
  fs_file = fs_file;
  contents = [];
}

abbrev pub bad_name : Bytes → Bool
bad_name name = is_nil name || bytes_eq name (codes ".") || has_slash name

module _ {E : Type 0} where
  abbrev pub unless_refused : Node → Option (NsError E) → Result (WireError E) Node
  unless_refused n none = ok n
  unless_refused n (some e) = err (refused e)

  abbrev pub at_fs : Server E → Node → Bytes → Result (WireError E) Node
  at_fs s n next =
      let dir = bytes_eq (trim_right next) fs_root in
      unless_refused (reached n next dir (not dir)) (walk_fs s next n.cap)

  -- One round of the loop of `Walk`.
  unfoldable pub hop : Server E → Node → Bytes → Result (WireError E) Node
  hop s n name =
      if bad_name name
      then err invalid_name
      else if is_fs_path (join_path n.path name)
      then at_fs s n (join_path n.path name)
      else if is_leaf name
      then unless_refused (reached n (join_path n.path name) false false) (walk s n.path n.cap)
      else if is_ancestor_dir s (join_path n.path name)
      then ok (reached n (join_path n.path name) true false)
      else unless_refused (reached n (join_path n.path name) true false)
          (walk s (join_path n.path name) n.cap)

  abbrev pub then_walk :
      Result (WireError E) Node → (Node → Result (WireError E) Node) → Result (WireError E) Node
  then_walk (ok n) f = f n
  then_walk (err e) f = err e

  unfoldable pub hops : Server E → Node → List Bytes → Result (WireError E) Node
  hops s n [] = ok n
  hops s n (name ∷ names) = then_walk (hop s n name) (λ n'. hops s n' names)

  -- `Walk`: without names it clones the node, unopened.
  abbrev pub walk_node : Server E → Node → List Bytes → Result (WireError E) Node
  walk_node s n [] = ok (record n { contents = [] })
  walk_node s n (name ∷ names) = hops s n (name ∷ names)

  abbrev pub described : Node → Option Bytes → Result (WireError E) Node
  described n none = err io_failed
  described n (some b) = ok (record n { contents = b })

  abbrev pub with_endpoint :
      Json
      → Node
      → Result (NsError E) DataEndpoint × Server E
      → Result (WireError E) Node × Server E
  with_endpoint json n (err e, s) = (err (refused e), s)
  with_endpoint json n (ok ep, s) = (described n (json.endpoint ep), s)

  abbrev pub with_info : Node → Result (NsError E) Bytes → Result (WireError E) Node
  with_info n (err e) = err (refused e)
  with_info n (ok b) = ok (record n { contents = b })

  abbrev pub open_file : Json → Server E → Node → Bool → Result (WireError E) Node × Server E
  open_file json s n writes =
      if writes
      then with_endpoint json n (open_fs_write s n.path n.cap)
      else (err needs_receiver, s)

  abbrev pub open_leaf : Json → Server E → Node → Result (WireError E) Node × Server E
  open_leaf json s n =
      if bytes_eq (base_path n.path) ctl
      then with_endpoint json n (open_ctl s n.path n.cap)
      else if bytes_eq (base_path n.path) info
      then (with_info n (read_info json.info s n.path n.cap), s)
      else (err not_a_leaf, s)

  -- `Open`; `writes` says that the mode is WriteOnly or ReadWrite.
  unfoldable pub open_node : Json → Server E → Node → Bool → Result (WireError E) Node × Server E
  open_node json s n writes =
      if n.dir
      then (err is_directory, s)
      else if n.fs_file
      then open_file json s n writes
      else open_leaf json s n

-- `ReadAt` at an offset that is not negative: what is read, and whether that is the end.
abbrev pub read_at : Node → ℕ → ℕ → Bytes × Bool
read_at n size off =
    if leb (length n.contents) off
    then ([], true)
    else let got = take size (drop off n.contents) in
      (got, leb (length n.contents) (off + length got))
