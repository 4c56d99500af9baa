-- ===== src/Server/Api.antt =====
-- internal/server/api.go and the cursor of pages.go: the feeds that the gallery scrolls through.
pub mod Limits
pub mod Scroll
use photo_server.Base.{
  ℕ, Bool, Option, none, some, List, [], ◌++◌, map, Text, bytes, Result, ok, err, length, last?,
  ◌==◌, ltb, atoi, positive, if◌then◌else◌,
}
use photo_server.Store.Schema.{SessionRow, Db, Faults}
use photo_server.Store.Feeds.{PhotoListItem, gallery_photos, session_photos}
use photo_server.Session.{Manager, Cookie, Bound, ensure}
use photo_server.Server.Http.{Reply, failed, answered}

pub record PhotoTile : Type 0 where
  pub hash : Text
  pub thumb_url : Text
  pub display_name : Text
  pub uploaded_at : ℕ
  pub heart_count : ℕ
  pub hearted : Bool

abbrev pub to_tile : PhotoListItem → PhotoTile
to_tile p = record {
  hash = p.hash;
  thumb_url = bytes "/thumb/" ++ p.hash;
  display_name = p.display_name;
  uploaded_at = p.uploaded_at;
  heart_count = p.heart_count;
  hearted = p.hearted;
}

abbrev pub to_tiles : List PhotoListItem → List PhotoTile
to_tiles = map to_tile

abbrev pub gallery_page_size : ℕ
gallery_page_size = 30

abbrev clamped : Option ℕ → ℕ → ℕ → ℕ
clamped none def max = def
clamped (some n) def max = if ltb max n then max else n

unfoldable pub clamp_limit : Text → ℕ → ℕ → ℕ
clamp_limit raw def max = clamped (positive (atoi raw)) def max

abbrev cursor : Option ℕ → ℕ
cursor none = 0
cursor (some n) = n

-- `?before=`: an absent or unusable value is the first page.
unfoldable pub parse_before : Text → ℕ
parse_before v = cursor (positive (atoi v))

abbrev pub id_of : Option PhotoListItem → ℕ
id_of none = 0
id_of (some p) = p.id

-- The limit is above 0, so a full page has a last item.
unfoldable pub next_before : ℕ → List PhotoListItem → ℕ
next_before limit items = if length items == limit then id_of (last? items) else 0

-- `nextCursor` of the server-rendered first page.
unfoldable pub next_cursor : List PhotoListItem → ℕ
next_cursor photos = if ltb (length photos) gallery_page_size then 0 else id_of (last? photos)

pub record Feed : Type 0 where
  pub photos : List PhotoTile
  pub next : ℕ

abbrev pub page_reply : ℕ → Result (List PhotoListItem) × Db → Reply Feed × Db
page_reply limit (ok items, db) =
    (answered (record { photos = to_tiles items; next = next_before limit items }), db)
page_reply limit (err, db) = (failed 500, db)

pub record FeedRequest : Type 0 where
  pub before : Text
  pub limit : Text
  pub cookie : Option Text

-- An unresolved session looks at the feed as nobody.
abbrev pub viewer_of : Result SessionRow → Text
viewer_of (ok s) = s.id
viewer_of err = []

abbrev pub photos_page : Faults → FeedRequest → Text → Db → Reply Feed × Db
photos_page faults r viewer db =
    let limit = clamp_limit r.limit gallery_page_size 100 in
    page_reply limit (gallery_photos faults viewer (parse_before r.before) limit db)

abbrev photos_for : Faults → FeedRequest → Bound × Db → Reply Feed × Option Cookie × Db
photos_for faults r (b, db) =
    let (reply, db') = photos_page faults r (viewer_of b.session) db in (reply, b.cookie, db')

-- The manager is `none` where sessions are not configured; `fresh` and `now` as in `ensure`.
unfoldable pub handle_photos :
    Faults → Option Manager → Text → ℕ → FeedRequest → Db → Reply Feed × Option Cookie × Db
handle_photos faults none fresh now r db =
    let (reply, db') = photos_page faults r [] db in (reply, none, db')
handle_photos faults (some m) fresh now r db =
    photos_for faults r (ensure faults m r.cookie fresh now db)

abbrev pub tiles_reply : Result (List PhotoListItem) × Db → Reply (List PhotoTile) × Db
tiles_reply (ok items, db) = (answered (to_tiles items), db)
tiles_reply (err, db) = (failed 500, db)

abbrev pub uploads_of :
    Faults
    → Text
    → Option Cookie
    → Result SessionRow
    → Db
    → Reply (List PhotoTile) × Option Cookie × Db
uploads_of faults limit cookie (ok s) db =
    let (reply, db') = tiles_reply (session_photos faults s.id (clamp_limit limit 60 200) db) in
    (reply, cookie, db')
uploads_of faults limit cookie err db = (failed 500, cookie, db)

abbrev uploads_for : Faults → Text → Bound × Db → Reply (List PhotoTile) × Option Cookie × Db
uploads_for faults limit (b, db) = uploads_of faults limit b.cookie b.session db

unfoldable pub handle_my_uploads :
    Faults
    → Option Manager
    → Text
    → ℕ
    → Text
    → Option Text
    → Db
    → Reply (List PhotoTile) × Option Cookie × Db
handle_my_uploads faults none fresh now limit cookie db = (answered [], none, db)
handle_my_uploads faults (some m) fresh now limit cookie db =
    uploads_for faults limit (ensure faults m cookie fresh now db)
