-- ===== src/Ninep/Leak.antt =====
-- daemon/ninep/ninep.go: what a listing shows of devices that the kernel hides.
use mathlib.Core.List.{Memᴰ}
use mathlib.Core.List.Memᴰ
use cerberus.Base.{
  true_not_false, ℕ, ◌+◌, ◌≡◌, refl, sym, ap, ◌∙◌, inl, inr, true, false, ◌||◌, List, [], ◌∷◌, ◌++◌,
  Option, none, some, length, length-append, drop-length, Bool-cases, ◌==◌, arith,
}
use cerberus.Base.Bytes.{codes, bytes_eq, bytes_eq_iff, has_prefix-append}
use cerberus.Auth.Grant.{contains}
use cerberus.Ninep.Path.{Bytes, slash, is_nil, trim_right, inside, segment, has_slash}
use cerberus.Ninep.Server.{Server, Device, passed_on, device_for, check, walk, FsStore}
use cerberus.Ninep.Listing.{add, add_all, names_of, list_devices, list_children, with_fs}

contains-append :
    (xs ys : List Bytes) (a : Bytes) → contains xs a ≡ true → contains (xs ++ ys) a ≡ true
unfolding contains
contains-append [] ys a h = cc
contains-append (x ∷ xs) ys a h = elim (Bool-cases (bytes_eq x a)) [
  | inl q ↦ rw q refl
  | inr q ↦ rw q (contains-append xs ys a (ground (arith, q, h)))
]

contains_last : (xs : List Bytes) (a : Bytes) → contains (xs ++ (a ∷ [])) a ≡ true
unfolding contains
contains_last [] a = rw ((bytes_eq_iff a a).1 refl) refl
contains_last (x ∷ xs) a = elim (Bool-cases (bytes_eq x a)) [
  | inl q ↦ rw q refl
  | inr q ↦ rw q (contains_last xs a)
]

contains-add :
    (name : Bytes) (out : List Bytes) (a : Bytes)
    → contains out a ≡ true
    → contains (add name out) a ≡ true
contains-add name out a h = elim (Bool-cases (is_nil name || contains out name)) [
  | inl q ↦ rw q h
  | inr q ↦ rw q (contains-append out (name ∷ []) a h)
]

contains-add_all :
    (names out : List Bytes) (a : Bytes)
    → contains out a ≡ true
    → contains (add_all names out) a ≡ true
unfolding add_all
contains-add_all [] out a h = h
contains-add_all (name ∷ names) out a h =
    contains-add_all names (add name out) a (contains-add name out a h)

contains_added :
    (name : Bytes) (out : List Bytes) → is_nil name ≡ false → contains (add name out) name ≡ true
contains_added name out e = elim (Bool-cases (contains out name)) [
  | inl q ↦ rw (e, q) q
  | inr q ↦ rw (e, q) (contains_last out name)
]

-- A name without a slash is its first segment.
segment_whole : (name : Bytes) → has_slash name ≡ false → segment name ≡ name
unfolding segment has_slash
segment_whole [] h = refl
segment_whole (x ∷ xs) h = elim (Bool-cases (x == slash)) [
  | inl q ↦ absurd (true_not_false (sym (rw q refl) ∙ h))
  | inr q ↦ rw q (ap (λ l. x ∷ l) (segment_whole xs (sym (rw q refl) ∙ h)))
]

module _ {E : Type 0} (s : Server E) (cap : ℕ) where
  contains-list_devices :
      (dir : Bytes) (ds : List Device) (out : List Bytes) (a : Bytes)
      → contains out a ≡ true
      → contains (list_devices s cap dir ds out) a ≡ true
  unfolding list_devices
  contains-list_devices dir [] out a h = h
  contains-list_devices dir (d ∷ ds) out a h =
      contains-list_devices dir ds (add_all (names_of s cap dir d) out) a
        (contains-add_all (names_of s cap dir d) out a h)

  names_of_child :
      (dir name : Bytes) (d : Device)
      → d.dir ≡ inside dir ++ name
      → has_slash name ≡ false
      → names_of s cap dir d ≡ name ∷ []
  names_of_child dir name d e plain =
      rw
        (
          e,
          other,
          has_prefix-append (inside dir) name,
          drop-length (inside dir) name,
          segment_whole name plain,
        )
        refl
    where
      longer : length (inside dir ++ name) ≡ length dir + 1 + length name
      longer =
          length-append (inside dir) name
          ∙ ap (λ n. n + length name) (length-append dir (slash ∷ []))

      other : bytes_eq (inside dir ++ name) dir ≡ false
      other = elim (Bool-cases (bytes_eq (inside dir ++ name) dir)) [
        | inl q ↦
            let same = ap length ((bytes_eq_iff (inside dir ++ name) dir).0 q) in
            absurd (omega (arith, longer, same))
        | inr q ↦ q
      ]

  child_listed :
      (dir name : Bytes) (d : Device) (ds : List Device) (out : List Bytes)
      → Memᴰ d ds
      → d.dir ≡ inside dir ++ name
      → has_slash name ≡ false
      → is_nil name ≡ false
      → contains (list_devices s cap dir ds out) name ≡ true
  unfolding list_devices add_all
  child_listed dir name d [] out m path plain full = absurd (Memᴰ.not-nil m)
  child_listed dir name d (e ∷ ds) out (Memᴰ.head q) path plain full =
      contains-list_devices dir ds (add_all (names_of s cap dir e) out) name (
        rw (names_of_child dir name e (ap (λ x. x.dir) (sym q) ∙ path) plain)
          (contains_added name out full))
  child_listed dir name d (e ∷ ds) out (Memᴰ.tail m) path plain full =
      child_listed dir name d ds (add_all (names_of s cap dir e) out) m path plain full

  contains-with_fs :
      (fs : Option (FsStore E)) (dir : Bytes) (out : List Bytes) (a : Bytes)
      → contains out a ≡ true
      → contains (with_fs fs dir out) a ≡ true
  contains-with_fs none dir out a h = h
  contains-with_fs (some store) dir out a h = elim (Bool-cases (bytes_eq dir (codes "/cer"))) [
    | inl q ↦ rw q (contains-add (codes "fs") out a h)
    | inr q ↦ rw q h
  ]

  -- A listing of a directory shows the last name of every device just below it, also to a capability
  -- that the kernel does not let read the device and that Walk therefore refuses at this path.
  pub list_children_leaks :
      (dir name : Bytes) (d : Device) (e : E)
      → Memᴰ d s.devices
      → d.dir ≡ inside (trim_right dir) ++ name
      → has_slash name ≡ false
      → is_nil name ≡ false
      → device_for s d.dir ≡ some d
      → check s cap (codes "read") d.ref ≡ some e
      → (contains (list_children s dir cap) name ≡ true) × (walk s d.dir cap ≡ some (passed_on e))
  unfolding list_children walk
  list_children_leaks dir name d e m path plain full owner denied = (
    contains-with_fs s.fs (trim_right dir) (list_devices s cap (trim_right dir) s.devices []) name
        (child_listed (trim_right dir) name d s.devices [] m path plain full),
    rw (owner, denied) refl,
  )
