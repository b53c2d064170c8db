-- ===== src/State/Clock.antt =====
-- daemon/state/state.go: vector clocks. A clock is the list of its entries; a missing actor reads 0.
pub mod Order
pub mod Ahead
use cerberus.Base.{
  ℕ, ◌+◌, ◌%◌, ◌^◌, Bool, true, false, not, ◌&&◌, List, [], ◌∷◌, ltb, ◌==◌, length, if◌then◌else◌,
}
use cerberus.Base.Bytes.{bytes_eq}

abbrev pub Clock : Type 0
Clock = List (List ℕ × ℕ)

unfoldable pub get : Clock → List ℕ → ℕ
get [] actor = 0
get ((k, v) ∷ c) actor = if bytes_eq k actor then v else get c actor

unfoldable pub set : Clock → List ℕ → ℕ → Clock
set [] actor n = (actor, n) ∷ []
set ((k, v) ∷ c) actor n =
    let rest = set c actor n in if bytes_eq k actor then (k, n) ∷ c else (k, v) ∷ rest

unfoldable pub tick : Clock → List ℕ → Clock
unfolding get set
tick c actor = set c actor ((get c actor + 1) % 2 ^ 64)

unfoldable pub merge_max : Clock → Clock → Clock
unfolding get set
merge_max c [] = c
merge_max c ((k, v) ∷ other) = merge_max (if ltb (get c k) v then set c k v else c) other

unfoldable pub dominated_by : Clock → Clock → Bool
unfolding get
dominated_by [] other = true
dominated_by ((k, v) ∷ c) other = not (ltb (get other k) v) && dominated_by c other

unfoldable pub same_entries : Clock → Clock → Bool
unfolding get
same_entries [] other = true
same_entries ((k, v) ∷ c) other = get other k == v && same_entries c other

unfoldable pub equal : Clock → Clock → Bool
unfolding same_entries
equal c other = length c == length other && same_entries c other

unfoldable pub happens_before : Clock → Clock → Bool
unfolding dominated_by equal
happens_before c other = dominated_by c other && not (equal c other)

unfoldable pub concurrent_with : Clock → Clock → Bool
unfolding dominated_by
concurrent_with c other = not (dominated_by c other) && not (dominated_by other c)
