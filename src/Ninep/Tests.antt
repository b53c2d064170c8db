-- ===== src/Ninep/Tests.antt =====
-- daemon/ninep at a concrete namespace: two devices, of which a capability may read one.
use mathlib.Core.List.{Memᴰ}
use cerberus.Base.{
  true_not_false, ℕ, ◌≡◌, ◌↔◌, refl, ap, sym, ◌∙◌, true, false, [], ◌∷◌, ◌++◌, Option, none, some,
  ok, ◌==◌, if◌then◌else◌,
}
use cerberus.Base.Bytes.{codes, bytes_eq, bytes_eq_iff, has_prefix}
use cerberus.Base.Int.{pos}
use cerberus.Contract.{CapKernel}
use cerberus.Auth.Grant.{ResourceRef, contains}
use cerberus.Ninep.Path.{Bytes, inside, trim_right, has_slash, ends_in_slash, base_path}
use cerberus.Ninep.Server.{
  Server, Device, device_for, longest, any_inside, check, walk, passed_on, with_stream, open_ctl,
}
use cerberus.Ninep.Listing.{list_children}
use cerberus.Ninep.Files.{fs_sub_path}
use cerberus.Ninep.Wire.{Node, Json, root_node, hop, hops, walk_node, open_node}
use cerberus.Ninep.Owner.{device_for_order}
use cerberus.Ninep.Gates.{Opened, open_node-Opened}
use cerberus.Ninep.Walk.{Visible, walk_node-Visible}
use cerberus.Ninep.Leak.{list_children_leaks}

abbrev gpu : Device
gpu = record {
  dir = codes "/cer/gpu";
  ref = record { kind = codes "gpu"; node = []; path = codes "g"; quota = none };
}

abbrev vram : Device
vram = record {
  dir = codes "/cer/vram";
  ref = record { kind = codes "vram"; node = []; path = codes "v"; quota = none };
}

-- Capability 1 may do anything with the first device, and nothing else is allowed.
abbrev kernel : CapKernel ℕ
kernel = record { verify = λ cap req now. if cap == 1 then resource_ok req.resource else some 403 }
  where
    resource_ok : Option ResourceRef → Option ℕ
    resource_ok none = some 400
    resource_ok (some ref) = if bytes_eq ref.kind (codes "gpu") then none else some 403

abbrev names : Server ℕ
names = record {
  kernel = kernel;
  devices = gpu ∷ vram ∷ [];
  now = pos 7;
  next_stream = 4;
  granter = none;
  fs = none;
}

abbrev json : Json
json = record { endpoint = λ ep. some (ep.endpoint); info = λ ref. some ref.path }

abbrev gpu_ctl : Node
gpu_ctl = record {
  cap = 1;
  path = codes "/cer/gpu/ctl";
  dir = false;
  fs_file = false;
  contents = [];
}

walked : walk_node names (root_node 1) (codes "gpu" ∷ codes "ctl" ∷ []) ≡ ok gpu_ctl
unfolding hops hop walk longest any_inside trim_right has_slash ends_in_slash bytes_eq has_prefix
    fs_sub_path
walked = refl

walk_node-Visible_example : Visible names gpu_ctl × (gpu_ctl.cap ≡ 1)
walk_node-Visible_example =
    walk_node-Visible names 1 (codes "gpu" ∷ codes "ctl" ∷ []) gpu_ctl walked

abbrev opened : Node
opened = record gpu_ctl { contents = codes "quic:///cer/gpu" }

open_it : open_node json names gpu_ctl false ≡ (ok opened, with_stream names)
unfolding open_node open_ctl longest base_path has_slash bytes_eq has_prefix
open_it = refl

open_node-Opened_example : (gpu_ctl.dir ≡ false) × Opened names gpu_ctl false (with_stream names)
open_node-Opened_example =
    open_node-Opened json names (with_stream names) gpu_ctl opened false open_it

vram_owner : device_for names (codes "/cer/vram") ≡ some vram
unfolding longest bytes_eq has_prefix
vram_owner = refl

plain_name : has_slash (codes "vram") ≡ false
unfolding has_slash
plain_name = refl

vram_denied : check names 1 (codes "read") vram.ref ≡ some 403
unfolding bytes_eq
vram_denied = refl

vram_path : vram.dir ≡ inside (trim_right (codes "/cer")) ++ codes "vram"
unfolding trim_right
vram_path = refl

list_children_leaks_example :
    (contains (list_children names (codes "/cer") 1) (codes "vram") ≡ true)
    × (walk names (codes "/cer/vram") 1 ≡ some (passed_on 403))
list_children_leaks_example =
    list_children_leaks names 1 (codes "/cer") (codes "vram") vram 403 (Memᴰ.tail (Memᴰ.head refl))
      vram_path plain_name refl vram_owner vram_denied

swapped : (e : Device) → Memᴰ e names.devices ↔ Memᴰ e (vram ∷ gpu ∷ [])
swapped e = (swap gpu vram, swap vram gpu)
  where
    swap : (a b : Device) → Memᴰ e (a ∷ b ∷ []) → Memᴰ e (b ∷ a ∷ [])
    swap a b (Memᴰ.head q) = Memᴰ.tail (Memᴰ.head q)
    swap a b (Memᴰ.tail (Memᴰ.head q)) = Memᴰ.head q
    swap a b (Memᴰ.tail (Memᴰ.tail m)) = elim m [ ]

apart : gpu.dir ≡ vram.dir → ⊥
unfolding bytes_eq
apart h = true_not_false (sym ((bytes_eq_iff gpu.dir vram.dir).1 h))

abbrev dir_of : Device → Bytes
dir_of x = x.dir

one_entry_each :
    (d e : Device) → Memᴰ d names.devices → Memᴰ e names.devices → d.dir ≡ e.dir → d ≡ e
one_entry_each d e (Memᴰ.head p) (Memᴰ.head q) h = p ∙ sym q
one_entry_each d e (Memᴰ.head p) (Memᴰ.tail (Memᴰ.head q)) h =
    absurd (apart (sym (ap dir_of p) ∙ h ∙ ap dir_of q))
one_entry_each d e (Memᴰ.tail (Memᴰ.head p)) (Memᴰ.head q) h =
    absurd (apart (sym (ap dir_of q) ∙ sym h ∙ ap dir_of p))
one_entry_each d e (Memᴰ.tail (Memᴰ.head p)) (Memᴰ.tail (Memᴰ.head q)) h = p ∙ sym q
one_entry_each d e (Memᴰ.tail (Memᴰ.tail m)) _ h = elim m [ ]
one_entry_each d e (Memᴰ.head p) (Memᴰ.tail (Memᴰ.tail m)) h = elim m [ ]
one_entry_each d e (Memᴰ.tail (Memᴰ.head p)) (Memᴰ.tail (Memᴰ.tail m)) h = elim m [ ]

device_for_order_example :
    device_for (record names { devices = vram ∷ gpu ∷ [] }) (codes "/cer/gpu/ctl")
    ≡ device_for names (codes "/cer/gpu/ctl")
device_for_order_example =
    device_for_order names (codes "/cer/gpu/ctl") (vram ∷ gpu ∷ []) swapped one_entry_each
