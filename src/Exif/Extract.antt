-- ===== src/Exif/Extract.antt =====
-- internal/exif: finding the TIFF block in a JPEG or HEIF file, and the date of a photo. The file
-- is its bytes, and `size` their number, as `storeOnePart` passes it.
pub mod Total
use photo_server.Base.{
  ℕ, zero, suc, ◌+◌, ◌-◌, ◌*◌, ◌^◌, Bool, true, false, not, ◌&&◌, ◌||◌, Option, none, some, List,
  [], ◌∷◌, Text, bytes, has_prefix, is_empty, length, take, drop, ◌==◌, ltb, leb, if◌then◌else◌,
}
use photo_server.Exif.Slices.{Run, done, panic, ◌>>=◌, index, slice, big, uint16}
use photo_server.Exif.Ifd.{looks_like_tiff, date_time_original_from_tiff}

abbrev pub scan_window : ℕ
scan_window = 2 ^ 20

abbrev pub max_tiff : ℕ
max_tiff = 2 ^ 20

abbrev pub max_jpeg_scan : ℕ
max_jpeg_scan = 2 ^ 20

abbrev pub min_of : ℕ → ℕ → ℕ
min_of a b = if ltb b a then b else a

-- `ReadAt` of `n` bytes; `none` is an error.
unfoldable pub read_at : Text → ℕ → ℕ → Option Text
read_at file off n =
    if leb (off + n) (length file) || (n == 0) then some (take n (drop off file)) else none

abbrev pub exif_signature : Text
exif_signature = b'E' ∷ b'x' ∷ b'i' ∷ b'f' ∷ 0 ∷ 0 ∷ []

-- The TIFF block of an APP1 payload, or nothing.
unfoldable pub exif_payload : Text → Run (Option Text)
exif_payload pay =
    if has_prefix pay exif_signature
    then (do
      tiff ← slice pay 6 (length pay)
      fits ← looks_like_tiff tiff
      done (if fits then some tiff else none))
    else done none

abbrev pub payload_of : Option Text → Run (Option Text) → Run (Option Text)
payload_of none rest = done none
payload_of (some pay) rest = do
  found ← exif_payload pay
  elim found [ none ↦ rest | some tiff ↦ done (some tiff) ]

-- One segment with its header read; `rest` goes on behind a segment of the given length.
unfoldable pub jpeg_segment : Text → ℕ → Text → (ℕ → Run (Option Text)) → Run (Option Text)
unfolding exif_payload
jpeg_segment file off hdr rest = do
  h0 ← index hdr 0
  if not (h0 == 0xFF) then done none else do
    marker ← index hdr 1
    if (marker == 0xDA) || (marker == 0xD9) then done none else do
      field ← slice hdr 2 4
      seg_len ← uint16 big field
      if ltb seg_len 2
          then done none
          else if marker == 0xE1
          then payload_of (read_at file (off + 4) (min_of (seg_len - 2) (max_tiff + 6)))
              (rest seg_len)
          else rest seg_len

-- The walk over the segments. Each takes four bytes at least, so as many rounds as the limit has
-- bytes are enough; a walk that ran out of them would be `panic`.
unfoldable pub jpeg_segments : ℕ → Text → ℕ → ℕ → Run (Option Text)
unfolding jpeg_segment read_at
jpeg_segments zero file limit off = panic
jpeg_segments (suc fuel) file limit off =
    let walk = λ (seg_len : ℕ). jpeg_segments fuel file limit (off + (2 + seg_len)) in
    if leb (off + 4) limit
    then elim (read_at file off 4) [ none ↦ done none | some hdr ↦ jpeg_segment file off hdr walk ]
    else done none

unfoldable pub jpeg_tiff : Text → Run (Option Text)
unfolding jpeg_segments
jpeg_tiff file =
    let limit = min_of (length file) max_jpeg_scan in jpeg_segments (suc limit) file limit 2

-- `bytes.Index`.
unfoldable pub index_of : Text → Text → Option ℕ
index_of sig [] = if is_empty sig then some 0 else none
index_of sig (c ∷ b) =
    let rest = index_of sig b in
    if has_prefix (c ∷ b) sig then some 0 else elim rest [ none ↦ none | some n ↦ some (suc n) ]

abbrev pub capped : Text → Text
capped tiff = if ltb max_tiff (length tiff) then take max_tiff tiff else tiff

-- The search for a signature that a TIFF header follows, from `base` on.
unfoldable pub scan_from : ℕ → Text → ℕ → Run (Option Text)
unfolding index_of
scan_from zero buf base = panic
scan_from (suc fuel) buf base = do
  tail ← slice buf base (length buf)
  elim (index_of exif_signature tail) [
    | none ↦ done none
    | some rel ↦
        (let again = scan_from fuel buf (base + rel + 1) in
          do
            tiff ← slice buf (base + rel + length exif_signature) (length buf)
            fits ← looks_like_tiff tiff
            if fits then done (some (capped tiff)) else again)
  ]

unfoldable pub scan : Text → Run (Option Text)
unfolding scan_from
scan file =
    let buf = take (min_of (length file) scan_window) file in scan_from (suc (length buf)) buf 0

unfoldable pub is_jpeg : Text → Run Bool
is_jpeg head =
    if ltb (length head) 2
    then done false
    else (do h0 ← index head 0; h1 ← index head 1; done ((h0 == 0xFF) && (h1 == 0xD8)))

unfoldable pub extract_tiff : Text → Run (Option Text)
unfolding is_jpeg
extract_tiff file = do
  jpeg ← is_jpeg (take 12 file)
  if not jpeg
      then scan file
      else do found ← jpeg_tiff file; elim found [ none ↦ scan file | some tiff ↦ done (some tiff) ]

abbrev pub date_text : Option Text → Run (Option Text)
date_text none = done none
date_text (some tiff) = date_time_original_from_tiff tiff

-- The text of the date, before it is parsed.
unfoldable pub date_time_text : Text → Run (Option Text)
date_time_text file = do tiff ← extract_tiff file; date_text tiff
