-- ===== src/Exif/Extract/Total.antt =====
-- The search for the TIFF block ends, within the rounds given, and never indexes out of bounds.
use photo_server.Base.{
  ℕ, zero, suc, ◌+◌, ◌-◌, ◌≡◌, ◌≤◌, ◌<◌, refl, not, ◌||◌, Text, Option, none, some, [], ◌∷◌, length,
  length-take, length-drop, take, drop, has_prefix, length-has_prefix, arith, ltb, leb, ◌==◌,
  if◌then◌else◌, Option-cases, inl, inr,
}
use photo_server.Exif.Slices.{Run, done, ◌>>=◌, index, slice, big, uint16}
use photo_server.Exif.Slices.Safe.{
  Yields, yields, Any, Yields-bind, Yields-if, index-Yields, HasLength, slice-Yields, uint16-Yields,
}
use photo_server.Exif.Ifd.{looks_like_tiff}
use photo_server.Exif.Ifd.Total.{Fits, looks_like_tiff-Yields, date_time_original_from_tiff-Yields}
use photo_server.Exif.Extract.{
  exif_signature, exif_payload, payload_of, read_at, min_of, max_tiff, jpeg_segment, jpeg_segments,
  jpeg_tiff, max_jpeg_scan, index_of, capped, scan_from, scan, scan_window, is_jpeg, extract_tiff,
  date_text, date_time_text,
}

abbrev Found : Option Text → Type 0
Found = Any

exif_payload-Yields : (pay : Text) → Yields Found (exif_payload pay)
unfolding exif_payload
exif_payload-Yields pay =
    Yields-if Found (has_prefix pay exif_signature) _ _
      (λ e.
        let long : 6 ≤ length pay = length-has_prefix pay exif_signature e in
        Yields-bind (HasLength (length pay - 6)) Found (slice pay 6 (length pay)) _
          (slice-Yields pay 6 (length pay) long (omega arith))
          λ tiff n.
            Yields-bind (Fits tiff) Found (looks_like_tiff tiff) _ (looks_like_tiff-Yields tiff)
              λ fits _. yields _ tt)
      (λ _. yields _ tt)

payload_of-Yields :
    (o : Option Text) (rest : Run (Option Text))
    → Yields Found rest
    → Yields Found (payload_of o rest)
payload_of-Yields none rest r = yields _ tt
payload_of-Yields (some pay) rest r =
    Yields-bind Found Found (exif_payload pay) _ (exif_payload-Yields pay)
      (elim [ none ↦ λ _. r | some tiff ↦ λ _. yields _ tt ])

jpeg_segment-Yields :
    (file : Text) (off : ℕ) (hdr : Text) (rest : ℕ → Run (Option Text))
    → length hdr ≡ 4
    → ((n : ℕ) → 2 ≤ n → Yields Found (rest n))
    → Yields Found (jpeg_segment file off hdr rest)
unfolding jpeg_segment
jpeg_segment-Yields file off hdr rest four r =
    Yields-bind Any Found (index hdr 0) _ (index-Yields hdr 0 (omega arith)) λ h0 _.
      Yields-if Found (not (h0 == 0xFF)) _ _ (λ _. yields _ tt)
        λ _. Yields-bind Any Found (index hdr 1) _ (index-Yields hdr 1 (omega arith)) λ marker _.
          Yields-if Found ((marker == 0xDA) || (marker == 0xD9)) _ _ (λ _. yields _ tt)
            λ _.
              Yields-bind (HasLength 2) Found (slice hdr 2 4) _
                (slice-Yields hdr 2 4 (omega arith) (omega arith))
                λ field two.
                  Yields-bind Any Found (uint16 big field) _ (uint16-Yields big field (omega arith))
                    λ seg_len _.
                      Yields-if Found (ltb seg_len 2) _ _ (λ _. yields _ tt)
                        λ long.
                          let next = r seg_len (ground arith) in
                          Yields-if Found (marker == 0xE1) _ _
                            (λ _.
                              payload_of-Yields
                                (read_at file (off + 4) (min_of (seg_len - 2) (max_tiff + 6)))
                                (rest seg_len) next)
                            (λ _. next)

read_at-four : (file : Text) (off : ℕ) (hdr : Text) → read_at file off 4 ≡ some hdr → length hdr ≡ 4
unfolding read_at
read_at-four file off hdr e = ground (arith, length-take 4 (drop off file), length-drop off file)

read_segment-Yields :
    (file : Text) (off : ℕ) (walk : ℕ → Run (Option Text)) (o : Option Text)
    → read_at file off 4 ≡ o
    → ((n : ℕ) → 2 ≤ n → Yields Found (walk n))
    → Yields Found (elim o [ none ↦ done none | some hdr ↦ jpeg_segment file off hdr walk ])
read_segment-Yields file off walk none e w = yields _ tt
read_segment-Yields file off walk (some hdr) e w =
    jpeg_segment-Yields file off hdr walk (read_at-four file off hdr e) w

jpeg_segments-Yields :
    (fuel : ℕ) (file : Text) (limit off : ℕ)
    → limit - off < fuel
    → Yields Found (jpeg_segments fuel file limit off)
unfolding jpeg_segments
jpeg_segments-Yields zero file limit off h = absurd (omega arith)
jpeg_segments-Yields (suc fuel) file limit off h =
    Yields-if Found (leb (off + 4) limit) _ _
      (λ inside.
        let room : off + 4 ≤ limit = ground arith in
        read_segment-Yields file off (λ n. jpeg_segments fuel file limit (off + (2 + n)))
          (read_at file off 4) refl
          λ n two. jpeg_segments-Yields fuel file limit (off + (2 + n)) (omega arith))
      (λ _. yields _ tt)

jpeg_tiff-Yields : (file : Text) → Yields Found (jpeg_tiff file)
unfolding jpeg_tiff
jpeg_tiff-Yields file =
    let limit = min_of (length file) max_jpeg_scan in
    jpeg_segments-Yields (suc limit) file limit 2 (omega arith)

-- A signature that is found lies in the text.
index_of-le : (sig b : Text) (n : ℕ) → index_of sig b ≡ some n → n + length sig ≤ length b
unfolding index_of
index_of-le [] [] n e = ground arith
index_of-le (c ∷ sig) [] n e = absurd (cc)
index_of-le sig (c ∷ b) n e = elim (Option-cases (index_of sig b)) [
  | inl q ↦ ground (arith, length-has_prefix (c ∷ b) sig)
  | inr (m, q) ↦ ground (arith, index_of-le sig b m q, length-has_prefix (c ∷ b) sig)
]

candidate-Yields :
    (fuel : ℕ) (buf : Text) (base : ℕ) (tail : Text)
    → length tail ≡ length buf - base
    → base ≤ length buf
    → (o : Option ℕ) → index_of exif_signature tail ≡ o
    → ((rel : ℕ) → base + rel + 6 ≤ length buf → Yields Found (scan_from fuel buf (base + rel + 1)))
    → Yields Found (elim o [
      | none ↦ done none
      | some rel ↦ slice buf (base + rel + length exif_signature) (length buf) >>= λ tiff.
          looks_like_tiff tiff >>= λ fits.
          if fits then done (some (capped tiff)) else scan_from fuel buf (base + rel + 1)
    ])
candidate-Yields fuel buf base tail n h none e again = yields _ tt
candidate-Yields fuel buf base tail n h (some rel) e again =
    let room : rel + 6 ≤ length tail = index_of-le exif_signature tail rel e in
    Yields-bind (HasLength (length buf - (base + rel + 6))) Found
      (slice buf (base + rel + 6) (length buf)) _
      (slice-Yields buf (base + rel + 6) (length buf) (omega arith) (omega arith))
      λ tiff _.
        Yields-bind (Fits tiff) Found (looks_like_tiff tiff) _ (looks_like_tiff-Yields tiff)
          λ fits _. Yields-if Found fits _ _ (λ _. yields _ tt) (λ _. again rel (omega arith))

scan_from-Yields :
    (fuel : ℕ) (buf : Text) (base : ℕ)
    → base ≤ length buf
    → length buf - base < fuel
    → Yields Found (scan_from fuel buf base)
unfolding scan_from
scan_from-Yields zero buf base h k = absurd (omega arith)
scan_from-Yields (suc fuel) buf base h k =
    Yields-bind (HasLength (length buf - base)) Found (slice buf base (length buf)) _
      (slice-Yields buf base (length buf) h (omega arith))
      λ tail n.
        candidate-Yields fuel buf base tail n h (index_of exif_signature tail) refl
          (λ rel fits. scan_from-Yields fuel buf (base + rel + 1) (omega arith) (omega arith))

scan-Yields : (file : Text) → Yields Found (scan file)
unfolding scan
scan-Yields file =
    let buf = take (min_of (length file) scan_window) file in
    scan_from-Yields (suc (length buf)) buf 0 (omega arith) (omega arith)

is_jpeg-Yields : (head : Text) → Yields Any (is_jpeg head)
unfolding is_jpeg
is_jpeg-Yields head =
    Yields-if Any (ltb (length head) 2) _ _ (λ _. yields _ tt)
      λ e.
        let two : 2 ≤ length head = ground arith in
        Yields-bind Any Any (index head 0) _ (index-Yields head 0 (omega arith)) λ h0 _.
          Yields-bind Any Any (index head 1) _ (index-Yields head 1 (omega arith))
            λ h1 _. yields _ tt

extract_tiff-Yields : (file : Text) → Yields Found (extract_tiff file)
unfolding extract_tiff
extract_tiff-Yields file =
    Yields-bind Any Found (is_jpeg (take 12 file)) _ (is_jpeg-Yields (take 12 file)) λ jpeg _.
      Yields-if Found (not jpeg) _ _ (λ _. scan-Yields file)
        λ _.
          Yields-bind Found Found (jpeg_tiff file) _ (jpeg_tiff-Yields file)
            (elim [ none ↦ λ _. scan-Yields file | some tiff ↦ λ _. yields _ tt ])

date_text-Yields : (o : Option Text) → Yields Found (date_text o)
date_text-Yields none = yields _ tt
date_text-Yields (some tiff) = date_time_original_from_tiff-Yields tiff

date_time_text-Yields : (file : Text) → Yields Found (date_time_text file)
unfolding date_time_text
date_time_text-Yields file =
    Yields-bind Found Found (extract_tiff file) _ (extract_tiff-Yields file)
      λ tiff _. date_text-Yields tiff

Yields-done : (r : Run (Option Text)) → Yields Found r → (o : Option Text) × (r ≡ done o)
Yields-done r (yields o p) = (o, refl)

-- Whatever bytes a file has, the search for its date comes to an end with a text or with none: no
-- slice is indexed out of its bounds on the way, and both loops end within their rounds.
pub date_time_text_total : (file : Text) → (o : Option Text) × (date_time_text file ≡ done o)
date_time_text_total file = Yields-done _ (date_time_text-Yields file)
