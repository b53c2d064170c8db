-- ===== src/Ninep/Walk.antt =====
-- daemon/ninep/wire.go: what a client can walk to.
use cerberus.Base.{
  err_not_ok, some_not_none, ℕ, ◌≡◌, refl, sym, ap, ◌∙◌, subst, Bool, true, false, not, List, [],
  ◌∷◌, ◌++◌, Option, none, some, Result, ok, err, if◌then◌else◌,
}
use cerberus.Base.Bytes.{codes, bytes_eq, bytes_eq_iff}
use cerberus.Ninep.Path.{Bytes, trim_right, inside, join_path, is_leaf}
use cerberus.Ninep.Server.{
  Server, Device, NsError, device_for, check, passed, walk, walk_to, is_ancestor_dir,
}
use cerberus.Ninep.Files.{fs_root, fs_resource, fs_sub_path, is_fs_path, walk_fs, walk_sub}
use cerberus.Ninep.Wire.{
  Node, WireError, invalid_name, root_node, reached, bad_name, unless_refused, at_fs, hop, hops,
  then_walk, walk_node,
}
use cerberus.Ninep.Gates.{FileAllowed}

-- The kernel allows to read the device that owns the path.
pub record Readable {E : Type 0} (s : Server E) (path : Bytes) (cap : ℕ) : Type 0 where
  pub device : Device
  pub found : device_for s path ≡ some device
  pub allowed : check s cap (codes "read") device.ref ≡ none

-- Why a client may stand at a node: it is the root, a directory above a device, the root of the files,
-- a file that the kernel allows to read, or it is in the directory of a device that the kernel allows
-- to read.
pub data Visible {E : Type 0} (s : Server E) (n : Node) : Type 0 where
  at_root : n.path ≡ codes "/cer" → n.dir ≡ true → Visible s n
  above_device : is_ancestor_dir s n.path ≡ true → n.dir ≡ true → Visible s n
  at_files : trim_right n.path ≡ fs_root → n.dir ≡ true → Visible s n
  at_file : FileAllowed s n.path n.cap (codes "read") → n.fs_file ≡ true → Visible s n
  at_device : Readable s n.path n.cap → n.dir ≡ true → Visible s n
  at_leaf :
      (parent name : Bytes)
      → n.path ≡ join_path parent name
      → is_leaf name ≡ true
      → Readable s parent n.cap
      → Visible s n

module _ {E : Type 0} where
  walk_ok : (s : Server E) (path : Bytes) (cap : ℕ) → walk s path cap ≡ none → Readable s path cap
  unfolding walk
  walk_ok s path cap h = go (device_for s path) refl h
    where
      checked :
          (d : Device)
          → device_for s path ≡ some d
          → (c : Option E) → check s cap (codes "read") d.ref ≡ c
          → passed c ≡ none
          → Readable s path cap
      checked d f (some e) q h = absurd (some_not_none h)
      checked d f none q h = record { device = d; found = f; allowed = q }

      go :
          (o : Option Device) → device_for s path ≡ o → walk_to s cap o ≡ none → Readable s path cap
      go none f h = absurd (some_not_none h)
      go (some d) f h = checked d f (check s cap (codes "read") d.ref) refl h

  walk_fs_ok :
      (s : Server E) (path : Bytes) (cap : ℕ)
      → bytes_eq (trim_right path) fs_root ≡ false
      → walk_fs s path cap ≡ none
      → FileAllowed s path cap (codes "read")
  unfolding walk_fs
  walk_fs_ok s path cap q h = go (fs_sub_path path) refl (sym (rw q refl) ∙ h)
    where
      checked :
          (sub : Bytes)
          → fs_sub_path path ≡ some sub
          → (c : Option E) → check s cap (codes "read") (fs_resource (inside fs_root ++ sub)) ≡ c
          → passed c ≡ none
          → FileAllowed s path cap (codes "read")
      checked sub f (some e) q h = absurd (some_not_none h)
      checked sub f none q h = record { sub = sub; found = f; allowed = q }

      go :
          (o : Option Bytes)
          → fs_sub_path path ≡ o
          → walk_sub s cap o ≡ none
          → FileAllowed s path cap (codes "read")
      go none f h = absurd (some_not_none h)
      go (some sub) f h =
          checked sub f (check s cap (codes "read") (fs_resource (inside fs_root ++ sub))) refl h

  unless_refused_ok :
      (n n' : Node) (r : Option (NsError E)) → unless_refused n r ≡ ok n' → (r ≡ none) × (n ≡ n')
  unless_refused_ok n n' none h = (refl, ap (λ r. elim r [ ok x ↦ x | err e ↦ n ]) h)
  unless_refused_ok n n' (some e) h = absurd (err_not_ok h)

  hop-Visible :
      (s : Server E) (n n' : Node) (name : Bytes)
      → hop s n name ≡ ok n'
      → Visible s n' × (n'.cap ≡ n.cap)
  unfolding hop
  hop-Visible s n n' name h =
      go (bad_name name) (is_fs_path next) (is_leaf name) refl (is_ancestor_dir s next) refl h
    where
      next : Bytes
      next = join_path n.path name

      moved :
          (m : Node)
          → m.cap ≡ n.cap
          → (r : Option (NsError E)) → (r ≡ none → Visible s m)
          → unless_refused m r ≡ ok n'
          → Visible s n' × (n'.cap ≡ n.cap)
      moved m c r v h =
          let (q, e) = unless_refused_ok m n' r h in
          (subst (Visible s) e (v q), ap (λ x. x.cap) (sym e) ∙ c)

      files :
          (d : Bool)
          → bytes_eq (trim_right next) fs_root ≡ d
          → unless_refused (reached n next d (not d)) (walk_fs s next n.cap) ≡ ok n'
          → Visible s n' × (n'.cap ≡ n.cap)
      files true q h =
          moved (reached n next true false) refl (walk_fs s next n.cap)
            (λ _. at_files ((bytes_eq_iff (trim_right next) fs_root).0 q) refl) h
      files false q h =
          moved (reached n next false true) refl (walk_fs s next n.cap)
            (λ e. at_file (walk_fs_ok s next n.cap q e) refl) h

      go :
          (bad fs leaf : Bool)
          → is_leaf name ≡ leaf
          → (above : Bool) → is_ancestor_dir s next ≡ above
          → (if bad
              then err invalid_name
              else if fs
              then at_fs s n next
              else if leaf
              then unless_refused (reached n next false false) (walk s n.path n.cap)
              else if above
              then ok (reached n next true false)
              else unless_refused (reached n next true false) (walk s next n.cap))
            ≡ ok n'
          → Visible s n' × (n'.cap ≡ n.cap)
      go true fs leaf l above a h = absurd (err_not_ok h)
      go false true leaf l above a h = files (bytes_eq (trim_right next) fs_root) refl h
      go false false true l above a h =
          moved (reached n next false false) refl (walk s n.path n.cap)
            (λ e. at_leaf n.path name refl l (walk_ok s n.path n.cap e)) h
      go false false false l true a h =
          moved (reached n next true false) refl none (λ _. above_device a refl) h
      go false false false l false a h =
          moved (reached n next true false) refl (walk s next n.cap)
            (λ e. at_device (walk_ok s next n.cap e) refl) h

  hops-Visible :
      (s : Server E) (n n' : Node) (names : List Bytes)
      → Visible s n
      → hops s n names ≡ ok n'
      → Visible s n' × (n'.cap ≡ n.cap)
  unfolding hops
  hops-Visible s n n' [] v h =
      let e : n ≡ n' = ap (λ r. elim r [ ok x ↦ x | err e ↦ n ]) h in
      (subst (Visible s) e v, ap (λ x. x.cap) (sym e))
  hops-Visible s n n' (name ∷ names) v h =
      step (hop s n name) refl (λ m w. hops-Visible s m n' names w) h
    where
      step :
          (r : Result (WireError E) Node)
          → hop s n name ≡ r
          → ((m : Node) → Visible s m → hops s m names ≡ ok n' → Visible s n' × (n'.cap ≡ m.cap))
          → then_walk r (λ m. hops s m names) ≡ ok n'
          → Visible s n' × (n'.cap ≡ n.cap)
      step (err e) q ih h = absurd (err_not_ok h)
      step (ok m) q ih h =
          let (w, c) = hop-Visible s n m name q in let (w', c') = ih m w h in (w', c' ∙ c)

  -- Wherever a client walks from the root with its capability, it stands at a directory above a device,
  -- at the root of the namespace or of the files, or the kernel allows that capability to read what
  -- the node belongs to.
  pub walk_node-Visible :
      (s : Server E) (cap : ℕ) (names : List Bytes) (n' : Node)
      → walk_node s (root_node cap) names ≡ ok n'
      → Visible s n' × (n'.cap ≡ cap)
  unfolding hops
  walk_node-Visible s cap [] n' h = hops-Visible s (root_node cap) n' [] (at_root refl refl) h
  walk_node-Visible s cap (name ∷ names) n' h =
      hops-Visible s (root_node cap) n' (name ∷ names) (at_root refl refl) h
