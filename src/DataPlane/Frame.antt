-- ===== src/DataPlane/Frame.antt =====
-- daemon/dataplane/frame.go: the header in front of a payload, and the copy that a quota bounds.
-- JSON is a parameter: a header's bytes, and what is read back from bytes.
pub mod Framing
pub mod Copy
pub mod Stall
use cerberus.Base.{
  ℕ, zero, suc, ◌+◌, ◌-◌, ◌*◌, ◌%◌, ◌^◌, Bool, true, false, ◌||◌, List, [], ◌∷◌, ◌++◌, Option, none,
  some, Result, ok, err, ltb, leb, ◌==◌, length, take, drop, if◌then◌else◌, u64_mod,
}
use cerberus.DataPlane.Stream.{
  Bytes, Source, ReadEnd, more, eof, read_error, put_back, read, Writer, write,
}
use cerberus.Auth.Envelope.{u32_bytes}
use cerberus.Auth.Envelope.Decoder.{big_endian}

abbrev pub max_header_len : ℕ
max_header_len = 64 * 1024

abbrev pub chunk_size : ℕ
chunk_size = 64 * 1024

pub record Header : Type 0 where
  pub transfer_id : ℕ
  pub cap : ℕ
  pub length : ℕ
  pub signed_cap : Bytes
  pub issuer : Bytes

pub record Json : Type 0 where
  pub marshal : Header → Option Bytes
  pub unmarshal : Bytes → Option Header

pub data FrameError : Type 0 where
  not_marshalled header_too_large write_failed short_read bad_length bad_header : FrameError

abbrev all_written : Bool × Writer → Result FrameError (Unit {0}) × Writer
all_written (true, w) = (ok tt, w)
all_written (false, w) = (err write_failed, w)

abbrev then_body : Bytes → Bool × Writer → Result FrameError (Unit {0}) × Writer
then_body b (false, w) = (err write_failed, w)
then_body b (true, w) = all_written (write b w)

abbrev framed : Option Bytes → Writer → Result FrameError (Unit {0}) × Writer
framed none w = (err not_marshalled, w)
framed (some b) w =
    if ltb max_header_len (length b)
    then (err header_too_large, w)
    else then_body b (write (u32_bytes (length b)) w)

unfoldable pub write_header : Json → Header → Writer → Result FrameError (Unit {0}) × Writer
write_header json h w = framed (json.marshal h) w

abbrev pub prepend : Bytes → Option (Bytes × Source) → Option (Bytes × Source)
prepend c none = none
prepend c (some (bs, s)) = some (c ++ bs, s)

-- `io.ReadFull` into a buffer of n bytes, reading until it is full.
unfoldable pub read_full : ℕ → List Bytes → Bool → Option (Bytes × Source)
read_full n [] b = if n == 0 then some ([], record { chunks = []; broken = b }) else none
read_full n (c ∷ cs) b =
    let rest = read_full (n - length c) cs b in
    if leb n (length c)
    then some (take n c, record { chunks = put_back (drop n c) cs; broken = b })
    else prepend c rest

abbrev decoded : Option Header → Source → Result FrameError (Header × Source)
decoded none s = err bad_header
decoded (some h) s = ok (h, s)

abbrev then_unmarshal : Json → Option (Bytes × Source) → Result FrameError (Header × Source)
then_unmarshal json none = err short_read
then_unmarshal json (some (buf, s)) = decoded (json.unmarshal buf) s

abbrev then_length : Json → Option (Bytes × Source) → Result FrameError (Header × Source)
then_length json none = err short_read
then_length json (some (lp, s)) =
    let n : ℕ = big_endian 0 lp in
    if n == 0 || ltb max_header_len n
    then err bad_length
    else then_unmarshal json (read_full n s.chunks s.broken)

unfoldable pub read_header : Json → Source → Result FrameError (Header × Source)
read_header json s = then_length json (read_full 4 s.chunks s.broken)

pub data CopyEnd : Type 0 where
  copied quota_exceeded copy_write_failed copy_read_failed : CopyEnd

abbrev pub Copied : Type 0
Copied = ℕ × CopyEnd × Writer

-- The buffer that the next read gets: one byte beyond the quota at most. The uint64 sum wraps.
abbrev pub want : ℕ → ℕ → ℕ
want limit total =
    let probe : ℕ = (limit - total + 1) % u64_mod in
    if ltb probe chunk_size then probe else chunk_size

abbrev pub kept_within : ℕ → ℕ → Bool × Writer → Option Copied
kept_within total keep (true, w) = some (total + keep, quota_exceeded, w)
kept_within total keep (false, w) = some (total, copy_write_failed, w)

-- `if total+uint64(nr) > limit { ... }`
abbrev pub overrun : ℕ → ℕ → Bytes → Writer → Option Copied
overrun limit total bs w =
    if ltb 0 (limit - total)
    then kept_within total (limit - total) (write (take (limit - total) bs) w)
    else some (total, quota_exceeded, w)

abbrev pub copy_end :
    (ℕ → Writer → Source → Option Copied) → ℕ → Writer → ReadEnd → Source → Option Copied
copy_end again total w more s = again total w s
copy_end again total w eof s = some (total, copied, w)
copy_end again total w read_error s = some (total, copy_read_failed, w)

abbrev pub after_write :
    (ℕ → Writer → Source → Option Copied) → ℕ → ℕ → Bool × Writer → ReadEnd → Source → Option Copied
after_write again total n (false, w) end s = some (total, copy_write_failed, w)
after_write again total n (true, w) end s = copy_end again (total + n) w end s

abbrev pub not_empty : Bytes → Bool
not_empty [] = false
not_empty (b ∷ bs) = true

-- One round of the loop, on what the read yielded; `again` is the next round.
abbrev pub copy_round :
    (ℕ → Writer → Source → Option Copied)
    → ℕ
    → ℕ
    → Writer
    → Bytes × ReadEnd × Source
    → Option Copied
copy_round again limit total w (bs, end, s) =
    if not_empty bs
    then if ltb limit ((total + length bs) % u64_mod)
      then overrun limit total bs w
      else after_write again total (length bs) (write bs w) end s
    else copy_end again total w end s

-- The loop, with as many rounds as `fuel` says; `none` is a loop that goes on.
unfoldable pub copy_loop : ℕ → ℕ → ℕ → Writer → Source → Option Copied
copy_loop zero limit total w s = none
copy_loop (suc fuel) limit total w s =
    copy_round (λ total' w' s'. copy_loop fuel limit total' w' s') limit total w
      (read (want limit total) s)

abbrev pub copy_quota : ℕ → Writer → Source → ℕ → Option Copied
copy_quota fuel dst src limit = copy_loop fuel limit 0 dst src
