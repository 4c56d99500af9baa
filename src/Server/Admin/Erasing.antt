-- ===== src/Server/Admin/Erasing.antt =====
-- What the operator's requests need and do.
use photo_server.Base.{
  ◌≡◌, inl, inr, Bool-cases, Option-cases, refl, ap, ◌∙◌, true, false, not, Option, none, some,
  List, [], ◌∷◌, Text, bytes, text_eq_iff, find, keep, is_empty, arith, if◌then◌else◌,
}
use photo_server.Store.Schema.{PhotoRow, Db}
use photo_server.Store.Photos.{has_hash, delete_rows, delete_photo}
use photo_server.Blobs.{
  Kind, original, thumb, gallery, FilePath, blob, path_eq, Files, has_file, valid_hash, path,
  remove,
}
use photo_server.Blobs.Contents.{path_eq_same}
use photo_server.Convert.{ext_for_mime}
use photo_server.Session.{Cookie}
use photo_server.Server.Gate.{Access, Request, through, access_cookie, require_access}
use photo_server.Server.Gate.Entry.{through_iff}
use photo_server.Server.Http.{redirected, is_hex_sha256}
use photo_server.Server.Serving.Healing.{valid_hash-is_hex_sha256}
use photo_server.Server.Admin.{
  admitted, is_password, require_admin, remove_all, handle_admin_delete,
}
use photo_server.Store.Schema as Schema
use photo_server.Blobs as Blobs

abbrev value_of : Option Cookie → Option Text
value_of none = none
value_of (some c) = some c.value

pub password_is :
    (auth : Option Text) (password : Text) → is_password auth password ≡ true → auth ≡ some password
password_is none password h = absurd (cc)
password_is (some given) password h = ap some ((text_eq_iff given password).0 h)

granted :
    (digest : Text → Text) (password : Text) (access : Access) (auth : Option Text)
    (cookie : Option Cookie)
    → require_admin digest password access auth ≡ admitted cookie
    → (is_empty password ≡ false)
      × (auth ≡ some password)
      × (cookie ≡ (if is_empty access.password then none else some (access_cookie digest access)))
unfolding require_admin
granted digest password access auth cookie e = ground (arith, password_is auth password)

opens :
    (digest : Text → Text) (access : Access) (r : Request)
    → r.cookie
      ≡ value_of (if is_empty access.password then none else some (access_cookie digest access))
    → require_access digest access r ≡ through
opens digest access r c =
    (through_iff digest access r).1 (elim (Bool-cases (is_empty access.password)) [
      | inl e ↦ inl e
      | inr e ↦ inr (inr (rw e at c))
    ])

-- Only the configured password admits, and none at all if no password is configured; who is
-- admitted is given a cookie with which the gate lets every request through.
pub require_admin_opens :
    (digest : Text → Text) (password : Text) (access : Access) (auth : Option Text)
    (cookie : Option Cookie) (r : Request)
    → require_admin digest password access auth ≡ admitted cookie
    → r.cookie ≡ value_of cookie
    → (is_empty password ≡ false)
      × (auth ≡ some password)
      × (require_access digest access r ≡ through)
require_admin_opens digest password access auth cookie r e c =
    let (set, given, same) = granted digest password access auth cookie e in
    (set, given, opens digest access r (c ∙ ap value_of same))

absent : (fs : Files) (p q : FilePath) → path_eq p q ≡ true → has_file p fs ≡ false → fs q ≡ none
absent fs p q same h = elim (Option-cases (fs q)) [
  | inl e ↦ e
  | inr (c, e) ↦ absurd (ground (arith, ap fs (path_eq_same p q same)))
]

remove_lem :
    (to_lower : Text → Text) (j : Kind) (hash ext : Text) (fs : Files) (p : FilePath)
    → valid_hash hash ≡ true
    → (remove to_lower Blobs.no_faults j hash ext fs).1 p
      ≡ (if path_eq (path to_lower j hash ext) p then none else fs p)
unfolding remove
remove_lem to_lower j hash ext fs p v = ground (arith, absent fs (path to_lower j hash ext) p)

by_kind :
    (to_lower : Text → Text) (hash ext : Text) (fs : Files) (k : Kind) (shard name : Text)
    → (if path_eq (path to_lower gallery hash ext) (blob k shard name)
        then none
        else if path_eq (path to_lower thumb hash ext) (blob k shard name)
        then none
        else if path_eq (path to_lower original hash ext) (blob k shard name)
        then none
        else fs (blob k shard name))
      ≡ (if path_eq (path to_lower k hash ext) (blob k shard name)
          then none
          else fs (blob k shard name))
unfolding path
by_kind to_lower hash ext fs original shard name = refl
by_kind to_lower hash ext fs thumb shard name = ground arith
by_kind to_lower hash ext fs gallery shard name = ground arith

remove_all_lem :
    (to_lower : Text → Text) (hash ext : Text) (fs : Files) (k : Kind) (shard name : Text)
    → valid_hash hash ≡ true
    → remove_all to_lower
        (λ _. Blobs.no_faults)
        hash
        ext
        (original ∷ thumb ∷ gallery ∷ [])
        fs
        (blob k shard name)
      ≡ (if path_eq (path to_lower k hash ext) (blob k shard name)
          then none
          else fs (blob k shard name))
unfolding remove_all path
remove_all_lem to_lower hash ext fs k shard name v =
    let p = blob k shard name in
    let first = (remove to_lower Blobs.no_faults original hash ext fs).1 in
    let second = (remove to_lower Blobs.no_faults thumb hash ext first).1 in
    remove_lem to_lower gallery hash ext second p v
    ∙ ap (λ (o : Option Text). if path_eq (path to_lower gallery hash ext) p then none else o)
        (remove_lem to_lower thumb hash ext first p v
          ∙ ap (λ (o : Option Text). if path_eq (path to_lower thumb hash ext) p then none else o)
              (remove_lem to_lower original hash ext fs p v))
    ∙ by_kind to_lower hash ext fs k shard name

delete_run :
    (to_lower : Text → Text) (cookie : Option Cookie) (hash : Text) (db : Db) (fs : Files)
    (p : PhotoRow)
    → is_hex_sha256 hash ≡ true
    → find (has_hash hash) db.photos ≡ some p
    → handle_admin_delete to_lower Schema.no_faults
        (λ _. Blobs.no_faults)
        (admitted cookie)
        hash
        fs
        db
      ≡ (
        redirected (bytes "/admin"),
        remove_all to_lower
            (λ _. Blobs.no_faults)
            hash
            (ext_for_mime p.mime)
            (original ∷ thumb ∷ gallery ∷ [])
            fs,
        delete_rows hash db,
      )
unfolding handle_admin_delete delete_photo
delete_run to_lower cookie hash db fs p hex e = rw (hex, e) refl

find-keep-not :
    (hash : Text) (rows : List PhotoRow)
    → find (has_hash hash) (keep (λ r. not (has_hash hash r)) rows) ≡ none
find-keep-not hash [] = refl
find-keep-not hash (r ∷ rows) = ground (arith, find-keep-not hash rows)

-- With no failing call, the operator's deletion of a stored photo whose hash is 64 hex digits leads
-- back to the list and removes the photo's row, its original, its thumbnail and its gallery rendition, and no other blob.
pub handle_admin_delete_erases :
    (to_lower : Text → Text) (cookie : Option Cookie) (hash : Text) (db : Db) (fs : Files)
    (p : PhotoRow) (k : Kind) (shard name : Text)
    → is_hex_sha256 hash ≡ true
    → find (has_hash hash) db.photos ≡ some p
    → let (reply, after, db') =
        handle_admin_delete to_lower Schema.no_faults
          (λ _. Blobs.no_faults)
          (admitted cookie)
          hash
          fs
          db in
      (reply ≡ redirected (bytes "/admin"))
      × (after (blob k shard name) ≡ (
          if path_eq (path to_lower k hash (ext_for_mime p.mime)) (blob k shard name)
          then none
          else fs (blob k shard name)))
      × (find (has_hash hash) db'.photos ≡ none)
unfolding delete_rows
handle_admin_delete_erases to_lower cookie hash db fs p k shard name hex e =
    let v : valid_hash hash ≡ true = valid_hash-is_hex_sha256 hash ∙ hex in
    rw (delete_run to_lower cookie hash db fs p hex e) (
      refl,
      remove_all_lem to_lower hash (ext_for_mime p.mime) fs k shard name v,
      find-keep-not hash db.photos,
    )
