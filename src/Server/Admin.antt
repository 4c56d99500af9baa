-- ===== src/Server/Admin.antt =====
-- internal/server/admin.go: the operator's pages.
pub mod Erasing
pub mod Sparing
use photo_server.Base.{
  ℕ, Bool, true, false, not, Option, none, some, List, [], ◌∷◌, Text, bytes, text_eq, is_empty,
  Result, ok, err, if◌then◌else◌,
}
use photo_server.Store.Schema.{Db}
use photo_server.Store.Schema as Schema
use photo_server.Store.Photos.{set_hidden, delete_photo}
use photo_server.Store.Feeds.{AdminPhotoRow, photo_counts, admin_photos}
use photo_server.Blobs as Blobs
use photo_server.Blobs.{Kind, original, thumb, gallery, Files, remove}
use photo_server.Convert.{ext_for_mime}
use photo_server.Session.{Cookie}
use photo_server.Server.Gate.{Access, access_cookie}
use photo_server.Server.Http.{Reply, failed, answered, redirected, is_hex_sha256}

-- What `requireAdmin` decides: an answer to give at once, or to go on, perhaps with the cookie that
-- also opens the guest pages.
pub data Admission : Type 0 where
  refused : ℕ → Admission
  admitted : Option Cookie → Admission

abbrev pub is_password : Option Text → Text → Bool
is_password none password = false
is_password (some given) password = text_eq given password

-- The cookie that the check leaves in the response.
abbrev pub granted_cookie : Admission → Option Cookie
granted_cookie (refused status) = none
granted_cookie (admitted cookie) = cookie

-- `auth` is the password of `r.BasicAuth`, if there is one.
unfoldable pub require_admin : (Text → Text) → Text → Access → Option Text → Admission
require_admin digest admin_password access auth =
    if is_empty admin_password
    then refused 404
    else if not (is_password auth admin_password)
    then refused 401
    else admitted (if is_empty access.password then none else some (access_cookie digest access))

pub record Dashboard : Type 0 where
  pub visible : ℕ
  pub hidden : ℕ
  pub photos : List AdminPhotoRow

abbrev photos_listed : ℕ × ℕ → Result (List AdminPhotoRow) × Db → Reply Dashboard
photos_listed n (err, db) = failed 500
photos_listed n (ok rows, db) = answered (record { visible = n.0; hidden = n.1; photos = rows })

abbrev counted : Schema.Faults → Result (ℕ × ℕ) × Db → Reply Dashboard
counted faults (err, db) = failed 500
counted faults (ok n, db) = photos_listed n (admin_photos faults 50 db)

-- The numbers of bytes on the page come from the file system and are not part of this.
unfoldable pub handle_admin_dashboard : Schema.Faults → Admission → Db → Reply Dashboard
handle_admin_dashboard faults (refused status) db = failed status
handle_admin_dashboard faults (admitted cookie) db = counted faults (photo_counts faults db)

abbrev pub hidden_reply : Result (Unit {0}) × Db → Reply (Unit {0}) × Db
hidden_reply (err, db) = (failed 500, db)
hidden_reply (ok _, db) = (redirected (bytes "/admin"), db)

-- `handleAdminHide` and `handleAdminUnhide`.
unfoldable pub admin_set_hidden :
    Schema.Faults → Admission → Text → Bool → ℕ → Db → Reply (Unit {0}) × Db
admin_set_hidden faults (refused status) hash hidden now db = (failed status, db)
admin_set_hidden faults (admitted cookie) hash hidden now db =
    if is_hex_sha256 hash
    then hidden_reply (set_hidden faults hash hidden now db)
    else (failed 400, db)

-- The removal goes through the kinds, an error being logged only; each removal has its own faults.
unfoldable pub remove_all :
    (Text → Text) → (Kind → Blobs.Faults) → Text → Text → List Kind → Files → Files
remove_all to_lower faults hash ext [] fs = fs
remove_all to_lower faults hash ext (k ∷ ks) fs =
    remove_all to_lower faults hash ext ks (remove to_lower (faults k) k hash ext fs).1

abbrev pub deleted_reply :
    (Text → Text)
    → (Kind → Blobs.Faults)
    → Text
    → Files
    → Result (Option Text) × Db
    → Reply (Unit {0}) × Files × Db
deleted_reply to_lower faults hash fs (err, db) = (failed 500, fs, db)
deleted_reply to_lower faults hash fs (ok none, db) = (failed 404, fs, db)
deleted_reply to_lower faults hash fs (ok (some mime), db) = (
  redirected (bytes "/admin"),
  remove_all to_lower faults hash (ext_for_mime mime) (original ∷ thumb ∷ gallery ∷ []) fs,
  db,
)

unfoldable pub handle_admin_delete :
    (Text → Text)
    → Schema.Faults
    → (Kind → Blobs.Faults)
    → Admission
    → Text
    → Files
    → Db
    → Reply (Unit {0}) × Files × Db
unfolding remove_all
handle_admin_delete to_lower faults blob_faults (refused status) hash fs db =
    (failed status, fs, db)
handle_admin_delete to_lower faults blob_faults (admitted cookie) hash fs db =
    if is_hex_sha256 hash
    then deleted_reply to_lower blob_faults hash fs (delete_photo faults hash db)
    else (failed 400, fs, db)

-- `handleAdminShutdown`: the answer, and whether the signal is sent.
unfoldable pub handle_admin_shutdown : Admission → Reply (Unit {0}) × Bool
handle_admin_shutdown (refused status) = (failed status, false)
handle_admin_shutdown (admitted cookie) = (answered tt, true)
