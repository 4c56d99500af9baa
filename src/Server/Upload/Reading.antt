-- ===== src/Server/Upload/Reading.antt =====
-- internal/server/upload.go: `limitedReader`, and the copying that drives it.
use photo_server.Base.{
  ℕ, zero, suc, ◌-◌, ◌%◌, ◌^◌, Bool, true, false, ◌&&◌, [], ◌++◌, Text, is_empty, length, take,
  drop, ltb, ◌==◌, if◌then◌else◌,
}

-- A source: its bytes, whether it breaks off with an error behind them instead of an end, whether
-- the read that gives the last bytes says so at once, and how many bytes more than one it has ready
-- for each read.
pub record Reader : Type 0 where
  pub content : Text
  pub breaks : Bool
  pub eager : Bool
  pub ready : ℕ → ℕ

-- What the copying has got, whether it ended in an error, and the flag `exceeded`.
pub record Copied : Type 0 where
  pub taken : Text
  pub failed : Bool
  pub exceeded : Bool

abbrev pub buffer_size : ℕ
buffer_size = 32768

abbrev pub min_of : ℕ → ℕ → ℕ
min_of a b = if ltb a b then a else b

-- The bytes of one read: what is ready, cut to the buffer and to what remains.
abbrev pub room : Reader → ℕ → ℕ → ℕ
room r n left = min_of (suc (r.ready n)) (min_of buffer_size left)

abbrev pub before : Text → Copied → Copied
before piece c = record c { taken = piece ++ c.taken }

-- `s.maxBody + 1` in the 64 bits of `remaining`, of which `Read` tells a negative number and 0 not
-- apart.
unfoldable pub remaining_of : ℕ → ℕ
remaining_of max = let sum = suc max % 2 ^ 64 in if ltb sum (2 ^ 63) then sum else 0

-- One round is one `Read` of the limited reader; running out of rounds counts as an error.
unfoldable pub copy : Reader → ℕ → ℕ → Text → Copied
copy r zero left rest = record { taken = []; failed = true; exceeded = false }
copy r (suc n) left rest =
    let piece = take (room r n left) rest in
    let more = drop (room r n left) rest in
    let later = copy r n (left - length piece) more in
    if left == 0
    then record { taken = []; failed = true; exceeded = true }
    else if is_empty rest
    then record { taken = []; failed = r.breaks; exceeded = false }
    else if is_empty more && r.eager
    then record { taken = piece; failed = r.breaks; exceeded = false }
    else before piece later

-- Each read but the last takes a byte at least.
unfoldable pub limited : Reader → ℕ → Copied
unfolding copy
limited r remaining = copy r (suc (length r.content)) remaining r.content
