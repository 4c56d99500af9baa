-- ===== src/Program.antt =====
-- cmd/photo-server/main.go: the start of the program, and the renditions that it asks for then.
pub mod Backfill
pub mod Healing
use photo_server.Base.{
  ℕ, suc, ◌+◌, ◌/◌, Bool, not, ◌&&◌, ◌||◌, Option, none, some, List, [], ◌∷◌, Text, is_empty,
  Result, ok, err, ℤ, if◌then◌else◌,
}
use photo_server.Config.{Config, System, load}
use photo_server.Store.Schema.{Db}
use photo_server.Store.Photos.{PhotoRef, all_photos}
use photo_server.Blobs.{thumb, gallery, Files, no_faults, exists}
use photo_server.Convert.{Tool, Converter, work, ext_for_mime, is_heic}
use photo_server.Convert.Pool.{Job, Pool, new_pool, enqueue}
use photo_server.Session.{Manager}
use photo_server.Server.Gate.{Access}
use photo_server.Store.Schema as Schema

-- Whether a photo's type has renditions and one of them is missing.
abbrev pub needs_job : (Text → Text) → Files → PhotoRef → Bool
needs_job to_lower fs r =
    not (is_empty (ext_for_mime r.mime))
    && (not (exists to_lower thumb r.hash [] fs)
        || (is_heic r.mime && not (exists to_lower gallery r.hash [] fs)))

abbrev pub job_of : PhotoRef → Job
job_of r = record { hash = r.hash; ext = ext_for_mime r.mime; mime = r.mime }

-- The loop over the photos; the files are those at the start.
unfoldable pub backfill : (Text → Text) → Files → List PhotoRef → Pool → Pool
backfill to_lower fs [] p = p
backfill to_lower fs (r ∷ refs) p =
    backfill to_lower fs refs (if needs_job to_lower fs r then enqueue p (job_of r) else p)

abbrev queued_for : (Text → Text) → Files → Result (List PhotoRef) → Pool → Pool
queued_for to_lower fs err p = p
queued_for to_lower fs (ok refs) p = backfill to_lower fs refs p

unfoldable pub backfill_renditions : (Text → Text) → Schema.Faults → Db → Files → Pool → Pool
unfolding backfill
backfill_renditions to_lower faults db fs p = queued_for to_lower fs (all_photos faults db).0 p

-- One worker's round through the queue, with no failing call; `id` names the temporary files.
unfoldable pub work_all : (Text → Text) → Tool → Converter → ℕ → List Job → Files → Files
work_all to_lower tool c id [] fs = fs
work_all to_lower tool c id (j ∷ jobs) fs =
    work_all to_lower tool c (id + 2) jobs
      (work to_lower tool c no_faults no_faults id (suc id) j.hash j.ext j.mime fs)

-- The stages at which the start can fail.
pub data Stage : Type 0 where
  opens_log makes_data_dir opens_store reads_version opens_blobs : Stage

-- What `server.New` is given, with the converter and the pool where the tool was found.
pub record Running : Type 0 where
  pub addr : Text
  pub shutdown_timeout : ℤ
  pub max_body : ℕ
  pub manager : Manager
  pub admin_password : Text
  pub base_url : Text
  pub access : Access
  pub conversion : Option (Converter × Pool)

abbrev pub converter_of : Config → Converter
converter_of c = record {
  gallery_px = c.gallery_max_px;
  gallery_q = c.jpeg_quality;
  thumb_px = c.thumb_px;
  thumb_q = c.thumb_quality;
}

abbrev pub conversion_of :
    (Text → Text) → (Text → Bool) → Schema.Faults → Db → Files → Config → Option (Converter × Pool)
conversion_of to_lower look_path faults db fs c =
    if look_path c.vips_thumbnail_bin
    then some
        (converter_of c, backfill_renditions to_lower faults db fs (new_pool c.convert_workers 256))
    else none

-- A nanosecond count as the seconds of a cookie.
abbrev seconds : ℕ → ℕ
seconds n = n / 1000000000

abbrev started :
    (Text → Text)
    → (Text → Bool)
    → Schema.Faults
    → (Stage → Bool)
    → Db
    → Files
    → Option Config
    → Option Running
started to_lower look_path faults fails db fs none = none
started to_lower look_path faults fails db fs (some c) =
    if (is_empty c.log_file || not (fails opens_log))
      && not (fails makes_data_dir || fails opens_store || fails reads_version || fails opens_blobs)
    then some (record {
      addr = c.addr;
      shutdown_timeout = c.shutdown_timeout;
      max_body = c.max_upload_bytes;
      manager = record { max_age = seconds c.session_max_age; secure = c.is_https };
      admin_password = c.admin_password;
      base_url = c.base_url;
      access = record { password = c.access_password; secure = c.is_https };
      conversion = conversion_of to_lower look_path faults db fs c;
    })
    else none

-- `run` up to the point where the server listens, with the database and the files as they are then;
-- `look_path` says whether the tool is found. `none` is an error.
unfoldable pub start :
    (Text → Text)
    → (Text → Bool)
    → System
    → Schema.Faults
    → (Stage → Bool)
    → Db
    → Files
    → Option Running
unfolding backfill_renditions
start to_lower look_path sys faults fails db fs =
    started to_lower look_path faults fails db fs (load sys)
