-- ===== src/Ninep/Gates.antt =====
-- daemon/ninep: what a client that opens a node was allowed.
use cerberus.Base.{
  err_not_ok, ℕ, ◌≡◌, refl, sym, ap, Bool, true, false, not, ◌++◌, Option, none, some, Result, ok,
  err, if◌then◌else◌,
}
use cerberus.Base.Bytes.{codes, bytes_eq, bytes_eq_iff}
use cerberus.Auth.Grant.{ResourceRef}
use cerberus.Ninep.Path.{Bytes, inside, base_path, ctl, info}
use cerberus.Ninep.Server.{
  Server, Device, DataEndpoint, NsError, not_openable, not_readable, device_for, check, with_stream,
  open_ctl, open_device, open_allowed, read_info, info_device, info_allowed,
}
use cerberus.Ninep.Files.{
  fs_root, fs_resource, fs_sub_path, open_fs_write, write_sub, write_allowed,
}
use cerberus.Ninep.Wire.{
  Node, Json, WireError, open_node, open_file, open_leaf, with_endpoint, with_info, is_directory,
  not_a_leaf,
}

-- The path is this name in the directory of the device that owns it, and the kernel allows the operation.
pub record LeafAllowed {E : Type 0} (s : Server E) (path : Bytes) (cap : ℕ) (name op : Bytes)
    : Type 0 where
  pub device : Device
  pub found : device_for s path ≡ some device
  pub named : path ≡ inside device.dir ++ name
  pub allowed : check s cap op device.ref ≡ none

pub record FileAllowed {E : Type 0} (s : Server E) (path : Bytes) (cap : ℕ) (op : Bytes)
    : Type 0 where
  pub sub : Bytes
  pub found : fs_sub_path path ≡ some sub
  pub allowed : check s cap op (fs_resource (inside fs_root ++ sub)) ≡ none

failed :
    {A B S C : Type 0} {e : A} {b : B} {s s' : S} → Path (Result A B × S) (err e, s) (ok b, s') → C
failed h = absurd (err_not_ok (ap (λ x. x.0) h))

-- How a node was opened, and what that did to the namespace.
pub data Opened {E : Type 0} (s : Server E) (n : Node) (writes : Bool) (s' : Server E)
    : Type 0 where
  opened_file :
      n.fs_file ≡ true
      → writes ≡ true
      → FileAllowed s n.path n.cap (codes "write")
      → s' ≡ with_stream s
      → Opened s n writes s'
  opened_ctl :
      LeafAllowed s n.path n.cap ctl (codes "alloc") → s' ≡ with_stream s → Opened s n writes s'
  opened_info : LeafAllowed s n.path n.cap info (codes "read") → s' ≡ s → Opened s n writes s'

module _ {E : Type 0} where
  open_ctl_ok :
      (s s' : Server E) (path : Bytes) (cap : ℕ) (ep : DataEndpoint)
      → open_ctl s path cap ≡ (ok ep, s')
      → LeafAllowed s path cap ctl (codes "alloc") × (s' ≡ with_stream s)
  unfolding open_ctl
  open_ctl_ok s s' path cap ep h = go (device_for s path) refl h
    where
      checked :
          (d : Device)
          → device_for s path ≡ some d
          → (b : Bool) → bytes_eq path (inside d.dir ++ ctl) ≡ b
          → (c : Option E) → check s cap (codes "alloc") d.ref ≡ c
          → (if not b then (err not_openable, s) else open_allowed s cap d c) ≡ (ok ep, s')
          → LeafAllowed s path cap ctl (codes "alloc") × (s' ≡ with_stream s)
      checked d found false q c p h = failed h
      checked d found true q (some e) p h = failed h
      checked d found true q none p h = (
        record {
          device = d;
          found = found;
          named = (bytes_eq_iff path (inside d.dir ++ ctl)).0 q;
          allowed = p;
        },
        sym (ap (λ x. x.1) h),
      )

      go :
          (o : Option Device)
          → device_for s path ≡ o
          → open_device s path cap o ≡ (ok ep, s')
          → LeafAllowed s path cap ctl (codes "alloc") × (s' ≡ with_stream s)
      go none found h = failed h
      go (some d) found h =
          checked d found (bytes_eq path (inside d.dir ++ ctl)) refl
            (check s cap (codes "alloc") d.ref) refl h

  read_info_ok :
      (marshal : ResourceRef → Option Bytes) (s : Server E) (path : Bytes) (cap : ℕ) (b : Bytes)
      → read_info marshal s path cap ≡ ok b
      → LeafAllowed s path cap info (codes "read")
  unfolding read_info
  read_info_ok marshal s path cap out h = go (device_for s path) refl h
    where
      checked :
          (d : Device)
          → device_for s path ≡ some d
          → (b : Bool) → bytes_eq path (inside d.dir ++ info) ≡ b
          → (c : Option E) → check s cap (codes "read") d.ref ≡ c
          → (if not b then err not_readable else info_allowed marshal d c) ≡ ok out
          → LeafAllowed s path cap info (codes "read")
      checked d found false q c p h = absurd (err_not_ok h)
      checked d found true q (some e) p h = absurd (err_not_ok h)
      checked d found true q none p h = record {
        device = d;
        found = found;
        named = (bytes_eq_iff path (inside d.dir ++ info)).0 q;
        allowed = p;
      }

      go :
          (o : Option Device)
          → device_for s path ≡ o
          → info_device marshal s path cap o ≡ ok out
          → LeafAllowed s path cap info (codes "read")
      go none found h = absurd (err_not_ok h)
      go (some d) found h =
          checked d found (bytes_eq path (inside d.dir ++ info)) refl
            (check s cap (codes "read") d.ref) refl h

  open_fs_write_ok :
      (s s' : Server E) (path : Bytes) (cap : ℕ) (ep : DataEndpoint)
      → open_fs_write s path cap ≡ (ok ep, s')
      → FileAllowed s path cap (codes "write") × (s' ≡ with_stream s)
  unfolding open_fs_write
  open_fs_write_ok s s' path cap ep h = go (fs_sub_path path) refl h
    where
      checked :
          (sub : Bytes)
          → fs_sub_path path ≡ some sub
          → (c : Option E) → check s cap (codes "write") (fs_resource (inside fs_root ++ sub)) ≡ c
          → write_allowed s (inside fs_root ++ sub) cap c ≡ (ok ep, s')
          → FileAllowed s path cap (codes "write") × (s' ≡ with_stream s)
      checked sub found (some e) p h = failed h
      checked sub found none p h =
          (record { sub = sub; found = found; allowed = p }, sym (ap (λ x. x.1) h))

      go :
          (o : Option Bytes)
          → fs_sub_path path ≡ o
          → write_sub s cap o ≡ (ok ep, s')
          → FileAllowed s path cap (codes "write") × (s' ≡ with_stream s)
      go none found h = failed h
      go (some sub) found h =
          checked sub found (check s cap (codes "write") (fs_resource (inside fs_root ++ sub))) refl
            h

  with_endpoint_ok :
      (json : Json) (n n' : Node) (p : Result (NsError E) DataEndpoint × Server E) (s' : Server E)
      → with_endpoint json n p ≡ (ok n', s')
      → (ep : DataEndpoint) × (p ≡ (ok ep, s'))
  with_endpoint_ok json n n' (err e, s) s' h = failed h
  with_endpoint_ok json n n' (ok ep, s) s' h = (ep, λ i. (ok ep, (h i).1))

  open_leaf-Opened :
      (json : Json) (s s' : Server E) (n n' : Node) (writes : Bool)
      → open_leaf json s n ≡ (ok n', s')
      → Opened s n writes s'
  open_leaf-Opened json s s' n n' writes h =
      go (bytes_eq (base_path n.path) ctl) (bytes_eq (base_path n.path) info) h
    where
      described_info :
          (r : Result (NsError E) Bytes)
          → read_info json.info s n.path n.cap ≡ r
          → Path (Result (WireError E) Node × Server E) (with_info n r, s) (ok n', s')
          → Opened s n writes s'
      described_info (err e) q h = failed h
      described_info (ok b) q h =
          opened_info (read_info_ok json.info s n.path n.cap b q) (sym (ap (λ x. x.1) h))

      go :
          (is_ctl is_info : Bool)
          → (if is_ctl
              then with_endpoint json n (open_ctl s n.path n.cap)
              else if is_info
              then (with_info n (read_info json.info s n.path n.cap), s)
              else (err not_a_leaf, s))
            ≡ (ok n', s')
          → Opened s n writes s'
      go true is_info h =
          let (ep, e) = with_endpoint_ok json n n' (open_ctl s n.path n.cap) s' h in
          let (a, b) = open_ctl_ok s s' n.path n.cap ep e in opened_ctl a b
      go false true h = described_info (read_info json.info s n.path n.cap) refl h
      go false false h = failed h

  -- A node that opens is no directory. Either it is a file that is opened for writing, and the kernel
  -- allowed that; or it is the ctl of the device that owns it, and the kernel allowed an allocation;
  -- or it is the info of that device, and the kernel allowed a read. The first two take a stream.
  pub open_node-Opened :
      (json : Json) (s s' : Server E) (n n' : Node) (writes : Bool)
      → open_node json s n writes ≡ (ok n', s')
      → (n.dir ≡ false) × Opened s n writes s'
  unfolding open_node
  open_node-Opened json s s' n n' writes h = go n.dir refl n.fs_file refl writes refl h
    where
      go :
          (dir : Bool)
          → n.dir ≡ dir
          → (file : Bool) → n.fs_file ≡ file
          → (w : Bool) → writes ≡ w
          → (if dir
              then (err is_directory, s)
              else if file
              then open_file json s n w
              else open_leaf json s n)
            ≡ (ok n', s')
          → (n.dir ≡ false) × Opened s n writes s'
      go true d file f w q h = failed h
      go false d true f false q h = failed h
      go false d true f true q h =
          let (ep, e) = with_endpoint_ok json n n' (open_fs_write s n.path n.cap) s' h in
          let (a, b) = open_fs_write_ok s s' n.path n.cap ep e in (d, opened_file f q a b)
      go false d false f w q h = (d, open_leaf-Opened json s s' n n' writes h)
