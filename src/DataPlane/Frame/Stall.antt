-- ===== src/DataPlane/Frame/Stall.antt =====
-- daemon/dataplane/frame.go: `copyQuota` under the largest quota.
use cerberus.Base.{ℕ, zero, suc, ◌-◌, ◌≡◌, refl, List, ◌∷◌, Option, none, u64_mod, Bool}
use cerberus.DataPlane.Stream.{Bytes, Source, read, Writer}
use cerberus.DataPlane.Frame.{Copied, want, copy_round, copy_loop, copy_quota}

never_ends :
    (fuel x : ℕ) (c : Bytes) (cs : List Bytes) (broken : Bool) (dst : Writer)
    → copy_quota fuel dst (record { chunks = (x ∷ c) ∷ cs; broken = broken }) (u64_mod - 1) ≡ none
unfolding copy_loop read
never_ends zero x c cs broken dst = refl
never_ends (suc fuel) x c cs broken dst = never_ends fuel x c cs broken dst

-- With the largest uint64 as its quota and a byte to read, a round of the loop hands on the count of
-- 0, the writer and the stream that it was given, whatever comes next, since the sum of what is left
-- and one wraps to 0 and it reads into an empty buffer. So nothing is ever written, and the loop does
-- not end within any number of rounds.
pub copy_quota_stalls :
    (fuel x : ℕ) (c : Bytes) (cs : List Bytes) (broken : Bool) (dst : Writer)
    (again : ℕ → Writer → Source → Option Copied)
    → (copy_round again
          (u64_mod - 1)
          0
          dst
          (read (want (u64_mod - 1) 0) (record { chunks = (x ∷ c) ∷ cs; broken = broken }))
        ≡ again 0 dst (record { chunks = (x ∷ c) ∷ cs; broken = broken }))
      × (copy_quota fuel dst (record { chunks = (x ∷ c) ∷ cs; broken = broken }) (u64_mod - 1)
          ≡ none)
unfolding read
copy_quota_stalls fuel x c cs broken dst again = (refl, never_ends fuel x c cs broken dst)
