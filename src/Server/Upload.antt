-- ===== src/Server/Upload.antt =====
-- internal/server/upload.go: photos from a multipart body.
-- The file system, the database and the queue of conversions are one state; an upload's parts come
-- as a list.
pub mod Reading
pub mod Bounded
pub mod Outcomes
pub mod Parts
pub mod Accepting
pub mod Answers
pub mod Shown
pub mod Filed
use photo_server.Base.{
  ℤ, ◌⊎◌, inl, inr, ℕ, suc, Bool, not, ◌&&◌, Option, none, some, List, [], ◌∷◌, Text, bytes,
  text_eq, has_prefix, length, take, drop, any, Result, ok, err, leb, if◌then◌else◌,
}
use photo_server.Store.Schema.{Db}
use photo_server.Store.Photos.{Photo, insert_photo}
use photo_server.Blobs.{Files, Source, Stored, original, put_original, open_blob}
use photo_server.Convert.Pool.{Job, Pool, enqueue}
use photo_server.Exif.Dates.{date_time_original}
use photo_server.Server.Http.{failed}
use Reading.{Reader, Copied, limited, remaining_of}
use photo_server.Store.Schema as Schema
use photo_server.Blobs as Blobs

-- What the code takes from Go's library: `http.DetectContentType`, `strings.ToLower`,
-- `filepath.Ext` and `Base`, SHA-256 in hex, `strings.TrimSpace` and `time.ParseInLocation` (in
-- seconds since 1970).
pub record Library : Type 0 where
  pub sniff : Text → Text
  pub to_lower : Text → Text
  pub file_ext : Text → Text
  pub base : Text → Text
  pub digest : Text → Text
  pub trim : Text → Text
  pub parse_date : Text → Option ℤ

pub data ImageType : Type 0 where
  jpeg png heic heif : ImageType

-- `acceptedTypes`.
abbrev pub mime_of : ImageType → Text
mime_of jpeg = bytes "image/jpeg"
mime_of png = bytes "image/png"
mime_of heic = bytes "image/heic"
mime_of heif = bytes "image/heif"

abbrev pub ext_of : ImageType → Text
ext_of jpeg = bytes ".jpg"
ext_of png = bytes ".png"
ext_of heic = bytes ".heic"
ext_of heif = bytes ".heif"

abbrev one_of : Text → List Text → Bool
one_of t = any (text_eq t)

abbrev by_extension : Text → Option ImageType
by_extension ext =
    if one_of ext (bytes "jpg" ∷ bytes "jpeg" ∷ [])
    then some jpeg
    else if text_eq ext (bytes "png")
    then some png
    else if text_eq ext (bytes "heic")
    then some heic
    else if text_eq ext (bytes "heif")
    then some heif
    else none

-- `strings.TrimPrefix` of a dot.
abbrev trim_dot : Text → Text
trim_dot ext = if has_prefix ext (bytes ".") then drop 1 ext else ext

abbrev heic_brands : List Text
heic_brands = bytes "heic" ∷ bytes "heix" ∷ bytes "hevc" ∷ bytes "heim" ∷ bytes "heis" ∷ []

abbrev heif_brands : List Text
heif_brands = bytes "mif1" ∷ bytes "msf1" ∷ bytes "heif" ∷ []

-- The brand of an ISO-BMFF header.
abbrev brand : Text → Option ImageType
brand head =
    if leb 12 (length head) && text_eq (take 4 (drop 4 head)) (bytes "ftyp")
    then (if one_of (take 4 (drop 8 head)) heic_brands
        then some heic
        else if one_of (take 4 (drop 8 head)) heif_brands
        then some heif
        else none)
    else none

abbrev or_by_extension : Option ImageType → Option ImageType → Option ImageType
or_by_extension (some k) other = some k
or_by_extension none other = other

unfoldable pub detect_image : Library → Text → Text → Option ImageType
detect_image lib head filename =
    let sniffed = lib.sniff head in
    if text_eq sniffed (bytes "image/jpeg")
    then some jpeg
    else if text_eq sniffed (bytes "image/png")
    then some png
    else or_by_extension (brand head)
        (by_extension (lib.to_lower (trim_dot (lib.file_ext filename))))

-- `conv` is `none` where conversion is not configured.
pub record World : Type 0 where
  pub db : Db
  pub files : Files
  pub conv : Option Pool

pub data PartError : Type 0 where
  unsupported too_large store_failed db_error : PartError

pub record Accepted : Type 0 where
  pub hash : Text
  pub mime : Text
  pub deduped : Bool
  pub photo_id : ℕ

-- `UploadResult`; the URLs follow from the hash.
pub record UploadResult : Type 0 where
  pub filename : Text
  pub outcome : PartError ⊎ Accepted

-- A file part: its name, its bytes as they arrive, the temporary file's name, the time, and what
-- fails while it is stored.
pub record FilePart : Type 0 where
  pub filename : Text
  pub body : Reader
  pub tmp_id : ℕ
  pub now : ℕ
  pub blob_faults : Blobs.Faults
  pub db_faults : Schema.Faults

abbrev pub enqueued : Option Pool → Job → Option Pool
enqueued none j = none
enqueued (some p) j = some (enqueue p j)

abbrev pub recorded :
    FilePart → Text → ImageType → World → Result (ℕ × Bool) × Db → UploadResult × World
recorded part hash kind w (err, db) =
    (record { filename = part.filename; outcome = inl db_error }, record w { db = db })
recorded part hash kind w (ok (id, deduped), db) = (
  record {
    filename = part.filename;
    outcome = inr (record { hash = hash; mime = mime_of kind; deduped = deduped; photo_id = id });
  },
  record w {
    db = db;
    conv = enqueued w.conv (record { hash = hash; ext = ext_of kind; mime = mime_of kind });
  },
)

-- The date of the stored original; a file that cannot be opened has none.
abbrev taken_at : Library → Result Text → Option ℕ
taken_at lib err = none
taken_at lib (ok content) = date_time_original lib.trim lib.parse_date content

abbrev pub photo_of : Library → FilePart → ImageType → Text → Text → Text → Files → Photo
photo_of lib part kind session_id name hash fs = record {
  content_hash = hash;
  mime = mime_of kind;
  original_filename = lib.base part.filename;
  uploader_session_id = session_id;
  display_name = name;
  taken_at = taken_at lib (open_blob lib.to_lower part.blob_faults original hash (ext_of kind) fs);
  uploaded_at = part.now;
  width = 0;
  height = 0;
}

-- The reader notices the excess only if nothing stops the copying before.
abbrev store_error : FilePart → Copied → PartError
store_error part c =
    if c.exceeded && not (part.blob_faults Blobs.creates) && not (part.blob_faults Blobs.copies)
    then too_large
    else store_failed

abbrev pub filed :
    Library
    → FilePart
    → ImageType
    → Text
    → Text
    → Copied
    → World
    → Result Stored × Files
    → UploadResult × World
filed lib part kind session_id name c w (err, fs) = (
  record { filename = part.filename; outcome = inl (store_error part c) },
  record w { files = fs },
)
filed lib part kind session_id name c w (ok s, fs) =
    recorded part s.hash kind (record w { files = fs })
      (insert_photo part.db_faults (photo_of lib part kind session_id name s.hash fs) w.db)

abbrev pub source_of : Copied → Source
source_of c = record { content = c.taken; breaks = c.failed }

abbrev pub kept : Library → ℕ → FilePart → ImageType → Text → Text → World → UploadResult × World
kept lib max_body part kind session_id name w =
    let c = limited part.body (remaining_of max_body) in
    filed lib part kind session_id name c w (
      put_original lib.digest lib.to_lower part.blob_faults part.tmp_id (source_of c) (ext_of kind)
        w.files)

abbrev pub of_type :
    Library → ℕ → FilePart → Text → Text → World → Option ImageType → UploadResult × World
of_type lib max_body part session_id name w none =
    (record { filename = part.filename; outcome = inl unsupported }, w)
of_type lib max_body part session_id name w (some kind) =
    kept lib max_body part kind session_id name w

unfoldable pub store_one_part : Library → ℕ → Text → Text → FilePart → World → UploadResult × World
unfolding detect_image
store_one_part lib max_body session_id name part w =
    of_type lib max_body part session_id name w
      (detect_image lib (take 512 part.body.content) part.filename)
