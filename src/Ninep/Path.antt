-- ===== src/Ninep/Path.antt =====
-- daemon/ninep: paths as bytes, and the functions of package strings that the namespace calls.
use cerberus.Base.{
  ℕ, Bool, true, false, ◌&&◌, ◌||◌, List, [], ◌∷◌, ◌++◌, ◌==◌, length, drop, if◌then◌else◌,
}
use cerberus.Base.Bytes.{codes, bytes_eq, has_prefix}

abbrev pub Bytes : Type 0
Bytes = List ℕ

abbrev pub slash : ℕ
slash = 47

abbrev pub is_nil : Bytes → Bool
is_nil [] = true
is_nil (x ∷ xs) = false

-- strings.TrimRight(path, "/")
unfoldable pub trim_right : Bytes → Bytes
trim_right [] = []
trim_right (x ∷ xs) = let rest = trim_right xs in if x == slash && is_nil rest then [] else x ∷ rest

-- What the source writes dir+"/".
abbrev pub inside : Bytes → Bytes
inside dir = dir ++ (slash ∷ [])

-- strings.TrimPrefix
abbrev pub trim_prefix : Bytes → Bytes → Bytes
trim_prefix s p = if has_prefix s p then drop (length p) s else s

-- The bytes in front of the first slash, or all of them.
unfoldable pub segment : Bytes → Bytes
segment [] = []
segment (x ∷ xs) = let rest = segment xs in if x == slash then [] else x ∷ rest

-- strings.Contains(name, "/")
unfoldable pub has_slash : Bytes → Bool
has_slash [] = false
has_slash (x ∷ xs) = x == slash || has_slash xs

unfoldable pub ends_in_slash : Bytes → Bool
ends_in_slash [] = false
ends_in_slash (x ∷ []) = x == slash
ends_in_slash (x ∷ y ∷ ys) = ends_in_slash (y ∷ ys)

abbrev pub join_path : Bytes → Bytes → Bytes
join_path dir name = if ends_in_slash dir then dir ++ name else inside dir ++ name

-- The bytes behind the last slash.
unfoldable pub base_path : Bytes → Bytes
base_path [] = []
base_path (x ∷ xs) =
    let rest = base_path xs in if has_slash xs then rest else if x == slash then xs else x ∷ xs

abbrev pub ctl : Bytes
ctl = codes "ctl"

abbrev pub info : Bytes
info = codes "info"

abbrev pub is_leaf : Bytes → Bool
is_leaf name = bytes_eq name ctl || bytes_eq name info || bytes_eq name (codes "alloc")
