-- ===== src/Server/Upload/Parts.antt =====
-- internal/server/upload.go: `handleUpload`, the walk over the parts of a request.
use photo_server.Base.{
  ℕ, Bool, true, false, not, ◌&&◌, inl, inr, Option, none, some, List, [], ◌∷◌, ◌++◌, Text, bytes,
  text_eq, is_empty, any, take, Result, ok, err, if◌then◌else◌,
}
use photo_server.Store.Schema.{SessionRow, Db}
use photo_server.Store.Schema as Schema
use photo_server.Session.{Manager, Cookie, Bound, ensure, set_display_name}
use photo_server.Server.Http.{Reply, failed, answered}
use photo_server.Server.Upload.{Library, World, UploadResult, FilePart, store_one_part}

-- A part with no file name is a form field; `malformed` is an error of `NextPart` other than the end.
pub data Part : Type 0 where
  field : Text → Text → Part
  file : FilePart → Part
  malformed : Part

-- What the walk keeps: the name for the files to come, whether a field gave it, and the results.
pub record Progress : Type 0 where
  pub display_name : Text
  pub name_from_form : Bool
  pub results : List UploadResult

-- `readFormValue` reads 4096 bytes.
abbrev pub field_value : Library → Text → Text
field_value lib value = lib.trim (take 4096 value)

abbrev pub on_field : Library → Text → Text → Progress → Progress
on_field lib name value p =
    if text_eq name (bytes "display_name") && not (is_empty (field_value lib value))
    then record p { display_name = field_value lib value; name_from_form = true }
    else p

abbrev pub add_result : UploadResult → Progress → Progress
add_result r p = record p { results = p.results ++ r ∷ [] }

-- `none` is a malformed body; what was stored before stays.
unfoldable pub walk : Library → ℕ → Text → List Part → Progress → World → Option Progress × World
walk lib max_body session_id [] p w = (some p, w)
walk lib max_body session_id (field name value ∷ parts) p w =
    walk lib max_body session_id parts (on_field lib name value p) w
walk lib max_body session_id (file f ∷ parts) p w =
    let stored = store_one_part lib max_body session_id p.display_name f w in
    walk lib max_body session_id parts (add_result stored.0 p) stored.1
walk lib max_body session_id (malformed ∷ parts) p w = (none, w)

abbrev pub is_ok : UploadResult → Bool
is_ok r = elim r.outcome [ inl e ↦ false | inr a ↦ true ]

pub record UploadResponse : Type 0 where
  pub status : ℕ
  pub uploaded : List UploadResult

pub record UploadRequest : Type 0 where
  pub is_multipart : Bool
  pub cookie : Option Text
  -- The query's `display_name`.
  pub query_name : Text
  pub parts : List Part

abbrev pub respond : List UploadResult → Reply UploadResponse
respond [] = failed 400
respond (r ∷ rs) =
    answered (record { status = if any is_ok (r ∷ rs) then 200 else 415; uploaded = r ∷ rs })

abbrev pub is_none_left : List UploadResult → Bool
is_none_left [] = true
is_none_left (r ∷ rs) = false

-- A name from a form field is kept in the session; an error there is logged only.
abbrev pub keep_name : Schema.Faults → Text → ℕ → Progress → Db → Db
keep_name faults session_id now p db =
    if p.name_from_form && not (is_none_left p.results) && not (is_empty session_id)
    then (set_display_name faults session_id p.display_name now db).1
    else db

abbrev pub finished :
    Schema.Faults
    → Text
    → ℕ
    → Option Cookie
    → Option Progress × World
    → Reply UploadResponse × Option Cookie × World
finished faults session_id now cookie (none, w) = (failed 400, cookie, w)
finished faults session_id now cookie (some p, w) =
    (respond p.results, cookie, record w { db = keep_name faults session_id now p w.db })

abbrev pub start : Library → Text → Text → Progress
start lib session_name query_name = record {
  display_name = if is_empty (lib.trim query_name) then session_name else lib.trim query_name;
  name_from_form = false;
  results = [];
}

abbrev pub upload_as :
    Library
    → ℕ
    → Schema.Faults
    → ℕ
    → UploadRequest
    → Option Cookie
    → Result SessionRow
    → World
    → Reply UploadResponse × Option Cookie × World
upload_as lib max_body faults now r cookie err w = (failed 500, cookie, w)
upload_as lib max_body faults now r cookie (ok s) w =
    finished faults s.id now cookie
      (walk lib max_body s.id r.parts (start lib s.display_name r.query_name) w)

abbrev pub upload_for :
    Library
    → ℕ
    → Schema.Faults
    → ℕ
    → UploadRequest
    → World
    → Bound × Db
    → Reply UploadResponse × Option Cookie × World
upload_for lib max_body faults now r w (b, db) =
    upload_as lib max_body faults now r b.cookie b.session (record w { db = db })

-- Where sessions are not configured, photos have no uploader and names are not kept. The first
-- faults are those of the session's statements, the second those of the name's.
unfoldable pub handle_upload :
    Library
    → ℕ
    → Schema.Faults
    → Schema.Faults
    → Option Manager
    → Text
    → ℕ
    → UploadRequest
    → World
    → Reply UploadResponse × Option Cookie × World
unfolding walk
handle_upload lib max_body faults name_faults none fresh now r w =
    if r.is_multipart
    then finished name_faults [] now none
        (walk lib max_body [] r.parts (start lib [] r.query_name) w)
    else (failed 400, none, w)
handle_upload lib max_body faults name_faults (some m) fresh now r w =
    if r.is_multipart
    then upload_for lib max_body name_faults now r w (ensure faults m r.cookie fresh now w.db)
    else (failed 400, none, w)
