-- ===== src/Exif/Ifd/Total.antt =====
-- Reading the directories never indexes out of bounds, whatever the bytes are.
use photo_server.Base.{
  ℕ, zero, suc, ◌+◌, ◌-◌, ◌≡◌, ◌≤◌, refl, Bool, true, not, ◌||◌, Text, Option, none, some, length,
  arith, ltb, leb, ◌==◌,
}
use photo_server.Exif.Slices.{Run, ◌>>=◌, index, slice, ByteOrder, uint16, uint32}
use photo_server.Exif.Slices.Safe.{
  Yields, yields, Any, Yields-bind, Yields-if, index-Yields, HasLength, slice-Yields, uint16-Yields,
  uint32-Yields,
}
use photo_server.Exif.Ifd.{
  Entry, Visit, go_on, stop, looks_like_tiff, read_entry, entries_from, ifd_entries, long_visit,
  ifd_long_value, ascii_visit, ifd_ascii_value, date_from, byte_order_of,
  date_time_original_from_tiff, tag_date_time_original, tag_exif_ifd_pointer,
}

-- What is taken for a TIFF block has its eight bytes of header.
abbrev pub Fits : Text → Bool → Type 0
Fits t b = b ≡ true → 8 ≤ length t

pub looks_like_tiff-Yields : (t : Text) → Yields (Fits t) (looks_like_tiff t)
unfolding looks_like_tiff
looks_like_tiff-Yields t =
    Yields-if (Fits t) (ltb (length t) 8) _ _ (λ _. yields _ (λ e. absurd (cc)))
      λ long.
        let size : 8 ≤ length t = ground arith in
        Yields-bind Any (Fits t) (index t 0) _ (index-Yields t 0 (omega arith)) λ b0 _.
          Yields-bind Any (Fits t) (index t 1) _ (index-Yields t 1 (omega arith)) λ b1 _.
            Yields-bind Any (Fits t) (index t 2) _ (index-Yields t 2 (omega arith)) λ b2 _.
              Yields-bind Any (Fits t) (index t 3) _ (index-Yields t 3 (omega arith))
                λ b3 _. yields _ (λ _. size)

-- A field of an entry that fits in the block.
abbrev FourBytes : Entry → Type 0
FourBytes e = length e.val ≡ 4

field16-Yields :
    {B : Type 0} (Q : B → Type 0) (t : Text) (bo : ByteOrder) (p q : ℕ) (k : ℕ → Run B)
    → q ≡ p + 2
    → q ≤ length t
    → ((n : ℕ) → Yields Q (k n))
    → Yields Q (slice t p q >>= λ s. uint16 bo s >>= k)
field16-Yields Q t bo p q k e h next =
    Yields-bind (HasLength (q - p)) Q (slice t p q) _ (slice-Yields t p q (omega arith) h)
      λ s n. Yields-bind Any Q (uint16 bo s) k (uint16-Yields bo s (omega arith)) λ v _. next v

field32-Yields :
    {B : Type 0} (Q : B → Type 0) (t : Text) (bo : ByteOrder) (p q : ℕ) (k : ℕ → Run B)
    → q ≡ p + 4
    → q ≤ length t
    → ((n : ℕ) → Yields Q (k n))
    → Yields Q (slice t p q >>= λ s. uint32 bo s >>= k)
field32-Yields Q t bo p q k e h next =
    Yields-bind (HasLength (q - p)) Q (slice t p q) _ (slice-Yields t p q (omega arith) h)
      λ s n. Yields-bind Any Q (uint32 bo s) k (uint32-Yields bo s (omega arith)) λ v _. next v

read_entry-Yields :
    (t : Text) (bo : ByteOrder) (p : ℕ) → p + 12 ≤ length t → Yields FourBytes (read_entry t bo p)
unfolding read_entry
read_entry-Yields t bo p h = field16-Yields FourBytes t bo p (p + 2) _ refl (omega arith) λ tag.
    field16-Yields FourBytes t bo (p + 2) (p + 4) _ (omega arith) (omega arith) λ typ.
      field32-Yields FourBytes t bo (p + 4) (p + 8) _ (omega arith) (omega arith) λ count.
        Yields-bind (HasLength (p + 12 - (p + 8))) FourBytes (slice t (p + 8) (p + 12)) _
          (slice-Yields t (p + 8) (p + 12) (omega arith) h) λ val n. yields _ (omega arith)

module _ {A : Type 0} (t : Text) (bo : ByteOrder) (fn : Entry → Run (Visit A))
    (safe : (e : Entry) → FourBytes e → Yields (Any {A = Visit A}) (fn e)) where
  entries_from-Yields : (n p : ℕ) → Yields (Any {A = Option A}) (entries_from t bo fn n p)
  unfolding entries_from
  entries_from-Yields zero p = yields _ tt
  entries_from-Yields (suc n) p =
      let rest = entries_from-Yields n (p + 12) in
      Yields-if (Any {A = Option A}) (ltb (length t) (p + 12)) _ _ (λ _. yields _ tt)
        λ long.
          Yields-bind FourBytes Any (read_entry t bo p) _ (read_entry-Yields t bo p (ground arith))
            λ e four.
              Yields-bind Any Any (fn e) _ (safe e four)
                (elim [ go_on ↦ λ _. rest | stop found ↦ λ _. yields _ tt ])

  ifd_entries-Yields : (off : ℕ) → Yields (Any {A = Option A}) (ifd_entries t bo off fn)
  unfolding ifd_entries
  ifd_entries-Yields off =
      Yields-if (Any {A = Option A}) (ltb (length t) (off + 2)) _ _ (λ _. yields _ tt)
        λ long.
          field16-Yields Any t bo off (off + 2) (λ n. entries_from t bo fn n (off + 2)) refl
            (ground arith) λ n. entries_from-Yields n (off + 2)

ifd_long_value-Yields :
    (t : Text) (bo : ByteOrder) (off want : ℕ)
    → Yields (Any {A = Option ℕ}) (ifd_long_value t bo off want)
unfolding ifd_long_value
ifd_long_value-Yields t bo off want =
    ifd_entries-Yields t bo (long_visit bo want)
      (λ e four.
        Yields-if (Any {A = Visit ℕ}) (e.tag == want) _ _
          (λ _.
            Yields-bind Any Any (uint32 bo e.val) _ (uint32-Yields bo e.val (omega arith))
              (λ v _. yields _ tt))
          (λ _. yields _ tt))
      off

ascii_visit-Yields :
    (t : Text) (bo : ByteOrder) (want : ℕ) (e : Entry)
    → FourBytes e
    → Yields (Any {A = Visit Text}) (ascii_visit t bo want e)
unfolding ascii_visit
ascii_visit-Yields t bo want e four =
    Yields-if (Any {A = Visit Text}) (not (e.tag == want)) _ _ (λ _. yields _ tt)
      λ _.
        Yields-if Any (leb e.count 0 || ltb 64 e.count) _ _ (λ _. yields _ tt)
          λ _.
            Yields-if Any (leb e.count 4) _ _
              (λ short.
                Yields-bind (HasLength (e.count - 0)) Any (slice e.val 0 e.count) _
                  (slice-Yields e.val 0 e.count (omega arith) (ground arith)) (λ s _. yields _ tt))
              λ _.
                Yields-bind Any Any (uint32 bo e.val) _ (uint32-Yields bo e.val (omega arith))
                  λ p _.
                    Yields-if Any (ltb (length t) (p + e.count)) _ _ (λ _. yields _ tt)
                      λ room.
                        Yields-bind (HasLength (p + e.count - p)) Any (slice t p (p + e.count)) _
                          (slice-Yields t p (p + e.count) (omega arith) (ground arith))
                          (λ s _. yields _ tt)

date_from-Yields :
    (t : Text) (bo : ByteOrder) (found : Option ℕ)
    → Yields (Any {A = Option Text}) (date_from t bo found)
unfolding ifd_ascii_value
date_from-Yields t bo none = yields _ tt
date_from-Yields t bo (some off) =
    ifd_entries-Yields t bo (ascii_visit t bo tag_date_time_original)
      (ascii_visit-Yields t bo tag_date_time_original) off

pub date_time_original_from_tiff-Yields :
    (t : Text) → Yields (Any {A = Option Text}) (date_time_original_from_tiff t)
unfolding date_time_original_from_tiff
date_time_original_from_tiff-Yields t =
    Yields-bind (Fits t) Any (looks_like_tiff t) _ (looks_like_tiff-Yields t) λ fits size.
      Yields-if (Any {A = Option Text}) (not fits) _ _ (λ _. yields _ tt)
        λ e.
          let long : 8 ≤ length t = size (ground arith) in
          Yields-bind Any Any (index t 0) _ (index-Yields t 0 (omega arith)) λ t0 _.
            field32-Yields Any t (byte_order_of t0) 4 8 _ refl long λ ifd0.
              Yields-bind Any Any (ifd_long_value t (byte_order_of t0) ifd0 tag_exif_ifd_pointer) _
                (ifd_long_value-Yields t (byte_order_of t0) ifd0 tag_exif_ifd_pointer)
                λ found _. date_from-Yields t (byte_order_of t0) found
