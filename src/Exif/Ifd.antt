-- ===== src/Exif/Ifd.antt =====
-- internal/exif: the TIFF directories and the date in them. Offsets are `uint32` values, so the
-- test `off < 0` of the source never holds on a 64-bit machine.
pub mod Total
use photo_server.Base.{
  ℕ, zero, suc, ◌+◌, Bool, true, false, not, ◌&&◌, ◌||◌, Option, none, some, Text, bytes, length,
  ◌==◌, ltb, leb, if◌then◌else◌,
}
use photo_server.Exif.Slices.{
  Run, done, panic, ◌>>=◌, index, slice, ByteOrder, little, big, uint16, uint32,
}

abbrev pub tag_exif_ifd_pointer : ℕ
tag_exif_ifd_pointer = 0x8769

abbrev pub tag_date_time_original : ℕ
tag_date_time_original = 0x9003

abbrev pub is_intel : ℕ → ℕ → ℕ → ℕ → Bool
is_intel a b c d = (a == b'I') && (b == b'I') && (c == 0x2A) && (d == 0x00)

abbrev pub is_motorola : ℕ → ℕ → ℕ → ℕ → Bool
is_motorola a b c d = (a == b'M') && (b == b'M') && (c == 0x00) && (d == 0x2A)

-- The test of the length first, then the first four bytes.
unfoldable pub looks_like_tiff : Text → Run Bool
unfolding index
looks_like_tiff b = if ltb (length b) 8 then done false else (do
  b0 ← index b 0
  b1 ← index b 1
  b2 ← index b 2
  b3 ← index b 3
  done (is_intel b0 b1 b2 b3 || is_motorola b0 b1 b2 b3))

pub record Entry : Type 0 where
  pub tag : ℕ
  pub typ : ℕ
  pub count : ℕ
  pub val : Text

-- What the callback of `ifdEntries` leaves: it goes on, or stops with a value found or not.
pub data Visit (A : Type 0) : Type 0 where
  go_on : Visit A
  stop : Option A → Visit A

unfoldable pub read_entry : Text → ByteOrder → ℕ → Run Entry
unfolding slice
read_entry t bo p = do
  tag_bytes ← slice t p (p + 2)
  tag ← uint16 bo tag_bytes
  typ_bytes ← slice t (p + 2) (p + 4)
  typ ← uint16 bo typ_bytes
  count_bytes ← slice t (p + 4) (p + 8)
  count ← uint32 bo count_bytes
  val ← slice t (p + 8) (p + 12)
  done (record { tag = tag; typ = typ; count = count; val = val })

-- The loop over the `n` entries that are left, from the offset `p`.
unfoldable pub entries_from :
    {A : Type 0} → Text → ByteOrder → (Entry → Run (Visit A)) → ℕ → ℕ → Run (Option A)
entries_from t bo fn zero p = done none
entries_from t bo fn (suc n) p =
    let rest = entries_from t bo fn n (p + 12) in
    if ltb (length t) (p + 12) then done none else (do
      entry ← read_entry t bo p
      visit ← fn entry
      elim visit [ go_on ↦ rest | stop found ↦ done found ])

unfoldable pub ifd_entries :
    {A : Type 0} → Text → ByteOrder → ℕ → (Entry → Run (Visit A)) → Run (Option A)
unfolding slice
ifd_entries t bo off fn =
    if ltb (length t) (off + 2)
    then done none
    else (do header ← slice t off (off + 2); n ← uint16 bo header; entries_from t bo fn n (off + 2))

abbrev pub long_visit : ByteOrder → ℕ → Entry → Run (Visit ℕ)
long_visit bo want e =
    if e.tag == want then (do v ← uint32 bo e.val; done (stop (some v))) else done go_on

unfoldable pub ifd_long_value : Text → ByteOrder → ℕ → ℕ → Run (Option ℕ)
unfolding ifd_entries
ifd_long_value t bo off want = ifd_entries t bo off (long_visit bo want)

abbrev pub found_text : Run Text → Run (Visit Text)
found_text raw = do s ← raw; done (stop (some s))

-- `DateTimeOriginal` has 20 bytes; a count over 64 is refused.
unfoldable pub ascii_visit : Text → ByteOrder → ℕ → Entry → Run (Visit Text)
unfolding slice
ascii_visit t bo want e =
    if not (e.tag == want)
    then done go_on
    else if leb e.count 0 || ltb 64 e.count
    then done (stop none)
    else if leb e.count 4
    then found_text (slice e.val 0 e.count)
    else (do
      p ← uint32 bo e.val
      if ltb (length t) (p + e.count)
          then done (stop none)
          else found_text (slice t p (p + e.count)))

unfoldable pub ifd_ascii_value : Text → ByteOrder → ℕ → ℕ → Run (Option Text)
unfolding ifd_entries ascii_visit
ifd_ascii_value t bo off want = ifd_entries t bo off (ascii_visit t bo want)

abbrev pub date_from : Text → ByteOrder → Option ℕ → Run (Option Text)
date_from t bo none = done none
date_from t bo (some exif_ifd) = ifd_ascii_value t bo exif_ifd tag_date_time_original

abbrev pub byte_order_of : ℕ → ByteOrder
byte_order_of c = if c == b'I' then little else big

-- IFD0, then the Exif IFD, then the date; `none` is `errNoEXIF`.
unfoldable pub date_time_original_from_tiff : Text → Run (Option Text)
unfolding slice
date_time_original_from_tiff t = do
  fits ← looks_like_tiff t
  if not fits then done none else do
    t0 ← index t 0
    field ← slice t 4 8
    ifd0 ← uint32 (byte_order_of t0) field
    exif_ifd ← ifd_long_value t (byte_order_of t0) ifd0 tag_exif_ifd_pointer
    date_from t (byte_order_of t0) exif_ifd
