-- ===== src/Convert.antt =====
-- internal/convert: renditions of originals, and the pool of workers that makes them.
pub mod Pool
pub mod Renditions
use photo_server.Base.{
  ℕ, Bool, false, ◌||◌, Option, none, some, [], Text, bytes, text_eq, Result, ok, err,
  if◌then◌else◌,
}
use photo_server.Blobs.{Kind, original, thumb, gallery, Files, Faults, path, exists, put}

-- The extension under which an original of that type is filed.
unfoldable pub ext_for_mime : Text → Text
ext_for_mime mime =
    if text_eq mime (bytes "image/jpeg")
    then bytes ".jpg"
    else if text_eq mime (bytes "image/png")
    then bytes ".png"
    else if text_eq mime (bytes "image/heic")
    then bytes ".heic"
    else if text_eq mime (bytes "image/heif")
    then bytes ".heif"
    else []

-- What `vipsthumbnail` makes of an original: a rendition with a longest edge and a quality, or an
-- error.
abbrev pub Tool : Type 0
Tool = Text → Kind → ℕ → ℕ → Result Text

abbrev pub is_heic : Text → Bool
is_heic mime = text_eq mime (bytes "image/heic") || text_eq mime (bytes "image/heif")

pub record Converter : Type 0 where
  pub gallery_px : ℕ
  pub gallery_q : ℕ
  pub thumb_px : ℕ
  pub thumb_q : ℕ

module _ (to_lower : Text → Text) (tool : Tool) where
  abbrev pub filed : Faults → ℕ → Kind → Text → Files → Result Text → Result (Unit {0}) × Files
  filed faults id k hash fs (ok rendition) =
      put to_lower faults id k hash [] (record { content = rendition; breaks = false }) fs
  filed faults id k hash fs err = (err, fs)

  abbrev pub rendered :
      Faults → ℕ → Kind → Text → ℕ → ℕ → Files → Option Text → Result (Unit {0}) × Files
  rendered faults id k hash px q fs none = (err, fs)
  rendered faults id k hash px q fs (some source) = filed faults id k hash fs (tool source k px q)

  -- Nothing is done for a rendition that is there.
  unfoldable pub render :
      Faults → ℕ → Kind → Text → Text → ℕ → ℕ → Files → Result (Unit {0}) × Files
  render faults id k hash src_ext px q fs =
      if exists to_lower k hash [] fs
      then (ok tt, fs)
      else rendered faults id k hash px q fs (fs (path to_lower original hash src_ext))

  unfoldable pub gallery_jpeg :
      Converter → Faults → ℕ → Text → Text → Files → Result (Unit {0}) × Files
  gallery_jpeg c faults id hash ext fs =
      render faults id gallery hash ext c.gallery_px c.gallery_q fs

  unfoldable pub thumbnail :
      Converter → Faults → ℕ → Text → Text → Files → Result (Unit {0}) × Files
  thumbnail c faults id hash ext fs = render faults id thumb hash ext c.thumb_px c.thumb_q fs

  -- What a worker does with a job; errors are logged only. The faults and the temporary name of the
  -- second rendition are its own.
  unfoldable pub work : Converter → Faults → Faults → ℕ → ℕ → Text → Text → Text → Files → Files
  unfolding gallery_jpeg thumbnail
  work c faults more id id' hash ext mime fs =
      let fs' = (thumbnail c faults id hash ext fs).1 in
      if is_heic mime then (gallery_jpeg c more id' hash ext fs').1 else fs'
