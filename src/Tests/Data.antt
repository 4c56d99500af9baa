-- ===== src/Tests/Data.antt =====
-- A small database, blob store and library, for the examples.
use photo_server.Base.{
  Bool, ℕ, refl, true, false, none, some, List, [], ◌∷◌, ◌++◌, map, All, Text, bytes, text_eq,
  lower_byte, ok, arith, pos, if◌then◌else◌,
}
use photo_server.Store.Schema.{SessionRow, PhotoRow, HeartRow, Db}
use photo_server.Store.Photos.{Photo}
use photo_server.Store.Migrations.{Entry, Migration, SchemaState, int_eq}
use photo_server.Store.Wf.{Wf}
use photo_server.Blobs.History.{no_files}
use photo_server.Blobs.{original, Files, FilePath, blob, path_eq, Source, Stored}
use photo_server.Convert.Pool.{Job}
use photo_server.Session.Tokens.Random.{IsByte}
use photo_server.Server.Guests.{HeartRequest}
use photo_server.Server.Upload.Reading.{Reader}
use photo_server.Server.Upload.Parts.{Progress}
use photo_server.Convert.{Tool, Converter}
use photo_server.Session.{Manager}
use photo_server.Server.Gate.{Access, Request}
use photo_server.Server.Upload.{Library, World, FilePart, Accepted}
use photo_server.Store.Schema as Schema
use photo_server.Blobs as Blobs

abbrev pub hash_a : Text
hash_a = bytes "aaaaaaaaaaaaaaaaaaaaaaaaaaaaaaaaaaaaaaaaaaaaaaaaaaaaaaaaaaaaaaaa"

abbrev pub hash_b : Text
hash_b = bytes "bbbbbbbbbbbbbbbbbbbbbbbbbbbbbbbbbbbbbbbbbbbbbbbbbbbbbbbbbbbbbbbb"

-- A token of the issued form.
abbrev pub guest : Text
guest = bytes "AAAAAAAAAAAAAAAAAAAAAAAAAAAAAAAAAAAAAAAAAAA"

abbrev pub guest_row : SessionRow
guest_row = record { id = guest; display_name = bytes "Ada"; created_at = 10; last_seen_at = 11 }

abbrev pub row_a : PhotoRow
row_a = record {
  id = 1;
  content_hash = hash_a;
  mime = bytes "image/heic";
  original_filename = bytes "a.heic";
  uploader_session_id = some guest;
  display_name = bytes "Ada";
  taken_at = none;
  uploaded_at = 12;
  width = 0;
  height = 0;
  hidden_at = none;
  heart_count = 1;
}

abbrev pub row_b : PhotoRow
row_b = record {
  id = 2;
  content_hash = hash_b;
  mime = bytes "image/png";
  original_filename = bytes "b.png";
  uploader_session_id = none;
  display_name = [];
  taken_at = some 5;
  uploaded_at = 13;
  width = 0;
  height = 0;
  hidden_at = none;
  heart_count = 0;
}

abbrev pub heart_a : HeartRow
heart_a = record { photo_id = 1; session_id = guest; created_at = 14 }

abbrev pub sample_db : Db
sample_db = record {
  sessions = guest_row ∷ [];
  photos = row_b ∷ row_a ∷ [];
  hearts = heart_a ∷ [];
  last_id = 2;
}

pub sample_db-Wf : Wf sample_db
unfolding text_eq
sample_db-Wf = record {
  ids = (omega arith, (omega arith, omega arith));
  hashes = (refl, (refl, tt));
  sessions = (refl, tt);
  pairs = (refl, tt);
  counted = (refl, (refl, tt));
  heart_photos = (refl, tt);
  heart_sessions = (refl, tt);
  uploaders = (refl, (refl, tt));
}

-- An upload of what `row_a` has, by nobody.
abbrev pub photo_a : Photo
photo_a = record {
  content_hash = hash_a;
  mime = bytes "image/heic";
  original_filename = bytes "again.heic";
  uploader_session_id = [];
  display_name = [];
  taken_at = none;
  uploaded_at = 20;
  width = 0;
  height = 0;
}

abbrev pub manager : Manager
manager = record { max_age = 2592000; secure = true }

abbrev pub access : Access
access = record { password = bytes "cake"; secure = true }

abbrev pub mark : Text → Text
mark t = bytes "#" ++ t

abbrev pub lower : Text → Text
lower = map lower_byte

abbrev pub same : Text → Text
same t = t

-- A digest of the right form, the same for all contents but the empty one.
abbrev pub digest : Text → Text
digest [] = hash_b
digest (c ∷ s) = hash_a

abbrev pub tool : Tool
tool source k px q = ok (bytes "rendition")

abbrev pub converter : Converter
converter = record { gallery_px = 2560; gallery_q = 85; thumb_px = 400; thumb_q = 80 }

abbrev pub original_a : FilePath
original_a = blob original (bytes "aa") (hash_a ++ bytes ".heic")

-- The original of `row_a` and nothing else.
abbrev pub sample_files : Files
sample_files p = if path_eq original_a p then some (bytes "photo") else none

abbrev pub library : Library
library = record {
  sniff = λ head. bytes "image/png";
  to_lower = lower;
  file_ext = λ name. bytes ".PNG";
  base = same;
  digest = digest;
  trim = same;
  parse_date = λ s. some (pos 7);
}

abbrev pub twos : List ℕ
twos =
    2 ∷ 2 ∷ 2 ∷ 2 ∷ 2 ∷ 2 ∷ 2 ∷ 2 ∷ 2 ∷ 2 ∷ 2 ∷ 2 ∷ 2 ∷ 2 ∷ 2 ∷ 2 ∷ 2 ∷ 2 ∷ 2 ∷ 2 ∷ 2 ∷ 2 ∷ 2 ∷ 2
    ∷ 2 ∷ 2 ∷ 2 ∷ 2 ∷ 2 ∷ 2 ∷ 2 ∷ 2 ∷ []

pub twos-bytes : All IsByte twos
twos-bytes = ground arith

-- A scanned link, and a visit with the cookie.
abbrev pub visit : Request
visit = record {
  path = bytes "/gallery";
  is_post = false;
  cookie = none;
  query = (bytes "k", bytes "cake") ∷ [];
  form_password = [];
}

abbrev pub known_visit : Request
known_visit = record visit { cookie = some (bytes "#cake"); query = [] }

abbrev pub heart_request : HeartRequest
heart_request = record { hash = hash_a; cookie = some guest; accepts_json = true; referer = [] }

abbrev pub source : Source
source = record { content = bytes "photo"; breaks = false }

abbrev pub stored : Stored
stored = record { hash = hash_a; size = 5 }

abbrev pub job : Job
job = record { hash = hash_a; ext = bytes ".heic"; mime = bytes "image/heic" }

abbrev pub same_number : ℕ → ℕ
same_number n = n

abbrev pub reader : Reader
reader = record { content = bytes "photo"; breaks = false; eager = false; ready = same_number }

abbrev pub part : FilePart
part = record {
  filename = bytes "b.PNG";
  body = reader;
  tmp_id = 7;
  now = 30;
  blob_faults = Blobs.no_faults;
  db_faults = Schema.no_faults;
}

abbrev pub world : World
world = record { db = sample_db; files = no_files; conv = none }

abbrev pub accepted : Accepted
accepted = record { hash = hash_a; mime = bytes "image/png"; deduped = true; photo_id = 1 }

abbrev pub start_progress : Progress
start_progress = record { display_name = []; name_from_form = false; results = [] }

abbrev pub no_query : List (Text × Text)
no_query = []

-- The files of the migrations, out of order.
abbrev pub scripts : List Entry
scripts =
    record { name = bytes "0002_hearts.sql"; is_dir = false; content = some (bytes "two") }
    ∷ record { name = bytes "0001_init.sql"; is_dir = false; content = some (bytes "one") }
    ∷ record { name = bytes "README"; is_dir = false; content = none }
    ∷ []

abbrev pub second_fails : Migration → Bool
second_fails m = int_eq m.version (pos 2)

abbrev pub fresh_schema : SchemaState
fresh_schema = record { version = pos 0; applied = [] }
