-- ===== src/Exif/Dates.antt =====
-- internal/exif: `DateTimeOriginal` with the parsing of the date's text.
use photo_server.Base.{
  ℕ, ◌||◌, Option, none, some, [], ◌∷◌, Text, bytes, is_empty, has_prefix, ◌==◌, ◌&&◌, ℤ, pos,
  if◌then◌else◌,
}
use photo_server.Exif.Slices.{Run, done, panic}
use photo_server.Exif.Extract.{date_time_text}

-- `strings.TrimRight` of NUL bytes.
unfoldable pub trim_nul : Text → Text
trim_nul [] = []
trim_nul (c ∷ s) = let rest = trim_nul s in if (c == 0) && is_empty rest then [] else c ∷ rest

-- A time before 1970 is none.
abbrev pub since_1970 : Option ℤ → Option ℕ
since_1970 (some (pos n)) = some n
since_1970 _ = none

-- `trim` is `strings.TrimSpace`, `parse` is `time.ParseInLocation` in seconds since 1970.
unfoldable pub parse_exif_date_time : (Text → Text) → (Text → Option ℤ) → Text → Option ℕ
unfolding trim_nul
parse_exif_date_time trim parse s =
    let t = trim (trim_nul s) in
    if is_empty t || has_prefix t (bytes "0000") then none else since_1970 (parse t)

-- A panic is recovered from.
abbrev pub recovered : (Text → Option ℕ) → Run (Option Text) → Option ℕ
recovered f panic = none
recovered f (done none) = none
recovered f (done (some s)) = f s

unfoldable pub date_time_original : (Text → Text) → (Text → Option ℤ) → Text → Option ℕ
unfolding date_time_text parse_exif_date_time
date_time_original trim parse file =
    recovered (parse_exif_date_time trim parse) (date_time_text file)
