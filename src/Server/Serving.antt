-- ===== src/Server/Serving.antt =====
-- internal/server/thumb.go and photoview.go: the bytes of photos and of their renditions.
pub mod Healing
pub mod Leaving
use photo_server.Base.{
  ℕ, Bool, true, false, not, ◌&&◌, Option, none, some, [], ◌∷◌, ◌++◌, Text, bytes, Result, ok, err,
  is_empty, any, leb, length, ◌==◌, if◌then◌else◌,
}
use photo_server.Store.Schema.{Db}
use photo_server.Store.Photos.{PhotoRef, PhotoMeta, photo_by_hash, photo_meta}
use photo_server.Blobs.{original, thumb, gallery, Files, exists, open_blob}
use photo_server.Convert.{Tool, Converter, ext_for_mime, is_heic, thumbnail, gallery_jpeg}
use photo_server.Server.Http.{Reply, failed, answered, is_hex_sha256}
use photo_server.Store.Schema as Schema
use photo_server.Blobs as Blobs

-- What `http.ServeContent` is given, and the headers that the handlers set.
pub record Served : Type 0 where
  pub content : Text
  pub content_type : Text
  pub etag : Text
  -- The attachment's name; none is shown in the browser.
  pub attachment : Option Text

abbrev opened : Text → Text → Option Text → Result Text → Reply Served
opened content_type etag attachment err = failed 404
opened content_type etag attachment (ok content) = answered (record {
  content = content;
  content_type = content_type;
  etag = etag;
  attachment = attachment;
})

abbrev pub succeeded : Result (Unit {0}) × Files → Bool × Files
succeeded (ok _, fs) = (true, fs)
succeeded (err, fs) = (false, fs)

-- `downloadName`; `trim` is `strings.TrimSpace`.
abbrev unsafe : ℕ → Bool
unsafe c = any (λ u. c == u) (34 ∷ 92 ∷ 47 ∷ 13 ∷ 10 ∷ [])

unfoldable pub download_name : (Text → Text) → Text → Text → Text → Text
download_name trim orig hash ext =
    let name = trim orig in
    if not (is_empty name) && not (any unsafe name) && leb (length name) 128
    then name
    else hash ++ ext

-- The tool, the database and what fails: none of them changes while a request is served. `convr` is
-- `none` where conversion is not configured.
module _ (to_lower : Text → Text) (tool : Tool) (convr : Option Converter) (faults : Schema.Faults)
    (blob_faults : Blobs.Faults) (db : Db) where
  -- With the name of a temporary file.
  abbrev pub thumb_of_type : ℕ → Text → Converter → Text → Files → Bool × Files
  thumb_of_type id hash c ext fs =
      if is_empty ext
      then (false, fs)
      else succeeded (thumbnail to_lower tool c blob_faults id hash ext fs)

  abbrev pub thumb_of : ℕ → Text → Converter → Result (Option PhotoRef) × Db → Files → Bool × Files
  thumb_of id hash c (ok (some ref), db') fs = thumb_of_type id hash c (ext_for_mime ref.mime) fs
  thumb_of id hash c (ok none, db') fs = (false, fs)
  thumb_of id hash c (err, db') fs = (false, fs)

  abbrev pub regenerate_thumb : ℕ → Text → Option Converter → Files → Bool × Files
  regenerate_thumb id hash none fs = (false, fs)
  regenerate_thumb id hash (some c) fs = thumb_of id hash c (photo_by_hash faults hash db) fs

  abbrev pub served_thumb : Text → Bool × Files → Reply Served × Files
  served_thumb hash (false, fs) = (failed 404, fs)
  served_thumb hash (true, fs) = (
    opened (bytes "image/webp") (bytes "\"" ++ hash ++ bytes "\"") none
        (open_blob to_lower blob_faults thumb hash [] fs),
    fs,
  )

  unfoldable pub handle_thumb : ℕ → Text → Files → Reply Served × Files
  handle_thumb id hash fs =
      if not (is_hex_sha256 hash)
      then (failed 400, fs)
      else served_thumb hash (
          if exists to_lower thumb hash [] fs
          then (true, fs)
          else regenerate_thumb id hash convr fs)

  abbrev pub regenerate_gallery : ℕ → Text → Text → Option Converter → Files → Bool × Files
  regenerate_gallery id hash mime none fs = (false, fs)
  regenerate_gallery id hash mime (some c) fs =
      if is_empty (ext_for_mime mime)
      then (false, fs)
      else succeeded (gallery_jpeg to_lower tool c blob_faults id hash (ext_for_mime mime) fs)

  abbrev pub served_gallery : Text → Bool × Files → Reply Served × Files
  served_gallery hash (false, fs) = (failed 404, fs)
  served_gallery hash (true, fs) = (
    opened (bytes "image/jpeg") (bytes "\"v-" ++ hash ++ bytes "\"") none
        (open_blob to_lower blob_faults gallery hash [] fs),
    fs,
  )

  abbrev pub view_of : ℕ → Text → Text → Files → Reply Served × Files
  view_of id hash mime fs =
      if is_heic mime
      then served_gallery hash (
          if exists to_lower gallery hash [] fs
          then (true, fs)
          else regenerate_gallery id hash mime convr fs)
      else (
        opened mime (bytes "\"v-" ++ hash ++ bytes "\"") none
            (open_blob to_lower blob_faults original hash (ext_for_mime mime) fs),
        fs,
      )

  abbrev pub view_for : ℕ → Text → Result (Option PhotoMeta) × Db → Files → Reply Served × Files
  view_for id hash (err, db') fs = (failed 500, fs)
  view_for id hash (ok none, db') fs = (failed 404, fs)
  view_for id hash (ok (some meta), db') fs = view_of id hash meta.mime fs

  unfoldable pub handle_photo_view : ℕ → Text → Files → Reply Served × Files
  handle_photo_view id hash fs =
      if not (is_hex_sha256 hash)
      then (failed 400, fs)
      else view_for id hash (photo_meta faults hash db) fs

  abbrev download_for : (Text → Text) → Text → Result (Option PhotoMeta) × Db → Files → Reply Served
  download_for trim hash (err, db') fs = failed 500
  download_for trim hash (ok none, db') fs = failed 404
  download_for trim hash (ok (some meta), db') fs =
      opened meta.mime (bytes "\"o-" ++ hash ++ bytes "\"")
        (some (download_name trim meta.original_filename hash (ext_for_mime meta.mime)))
        (open_blob to_lower blob_faults original hash (ext_for_mime meta.mime) fs)

  unfoldable pub handle_original_download : (Text → Text) → Text → Files → Reply Served
  handle_original_download trim hash fs =
      if not (is_hex_sha256 hash)
      then failed 400
      else download_for trim hash (photo_meta faults hash db) fs
