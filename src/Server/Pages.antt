-- ===== src/Server/Pages.antt =====
-- internal/server/pages.go: the pages that are rendered on the server.
use photo_server.Base.{
  ℕ, Bool, false, Option, none, some, List, [], Text, bytes, text_eq, is_empty, Result, ok, err,
  if◌then◌else◌,
}
use photo_server.Store.Schema.{SessionRow, Db, Faults}
use photo_server.Store.Photos.{PhotoMeta, photo_meta}
use photo_server.Store.Hearts.{Toggled, photo_heart_state}
use photo_server.Store.Feeds.{
  PhotoListItem, session_photos, gallery_photos, top_photos, loved_count, photo_counts,
}
use photo_server.Session.{Manager, Cookie, Bound, ensure}
use photo_server.Server.Http.{Reply, failed, answered, is_hex_sha256}
use photo_server.Server.Api.{gallery_page_size, next_cursor}

pub data Page : Type 0 where
  polaroid upload gallery photo : Page

pub record PageData : Type 0 where
  pub active : Text
  pub name : Text
  pub recent : List PhotoListItem
  pub photos : List PhotoListItem
  pub next_before : ℕ
  pub view_hash : Text
  pub view_name : Text
  pub view_hearts : ℕ
  pub view_hearted : Bool
  pub filter : Text
  pub total_count : ℕ
  pub loved_count : ℕ

abbrev pub no_data : PageData
no_data = record {
  active = [];
  name = [];
  recent = [];
  photos = [];
  next_before = 0;
  view_hash = [];
  view_name = [];
  view_hearts = 0;
  view_hearted = false;
  filter = [];
  total_count = 0;
  loved_count = 0;
}

abbrev pub top_gallery_limit : ℕ
top_gallery_limit = 60

-- The id and the name of the guest, both empty where there is no session.
pub record Guest : Type 0 where
  pub id : Text
  pub name : Text
  pub cookie : Option Cookie

abbrev guest_of : Option Cookie → Result SessionRow → Guest
guest_of cookie (ok s) = record { id = s.id; name = s.display_name; cookie = cookie }
guest_of cookie err = record { id = []; name = []; cookie = cookie }

abbrev pub guest_for : Bound × Db → Guest × Db
guest_for (b, db) = (guest_of b.cookie b.session, db)

unfoldable pub ensure_name : Faults → Option Manager → Option Text → Text → ℕ → Db → Guest × Db
ensure_name faults none cookie fresh now db = (record { id = []; name = []; cookie = none }, db)
ensure_name faults (some m) cookie fresh now db = guest_for (ensure faults m cookie fresh now db)

-- What a query gives, or what is shown where it fails.
abbrev pub or_else : {A : Type 0} → Result A → A → A
or_else (ok a) b = a
or_else err b = b

-- The first page of the gallery, or its most loved photos.
abbrev pub gallery_data : Faults → Text → Text → Bool → Db → PageData
gallery_data faults id name loved db =
    let photos : List PhotoListItem =
      or_else
        (if loved
          then (top_photos faults id top_gallery_limit db).0
          else (gallery_photos faults id 0 gallery_page_size db).0)
        [] in
    record no_data {
      active = bytes "gallery";
      name = name;
      photos = photos;
      next_before = if loved then 0 else next_cursor photos;
      filter = if loved then bytes "loved" else [];
      total_count = (or_else (photo_counts faults db).0 (0, 0)).0;
      loved_count = or_else (loved_count faults db).0 0;
    }

abbrev pub recent_of : Faults → Text → Db → List PhotoListItem
recent_of faults id db = if is_empty id then [] else or_else (session_photos faults id 60 db).0 []

abbrev pub no_hearts : Toggled
no_hearts = record { count = 0; hearted = false }

abbrev pub photo_data : Faults → PhotoMeta → Guest → Db → PageData
photo_data faults m guest db =
    let hearts = or_else (photo_heart_state faults m.hash guest.id db).0 no_hearts in
    record no_data {
      active = bytes "gallery";
      name = guest.name;
      view_hash = m.hash;
      view_name = m.display_name;
      view_hearts = hearts.count;
      view_hearted = hearts.hearted;
    }

-- A request for a page: the token of its cookie and, for the gallery, the query's `filter`.
pub record PageRequest : Type 0 where
  pub cookie : Option Text
  pub filter : Text

-- `template` executes a page's template, the version of the program included; `sessions` is `none`
-- where sessions are not configured.
module _ (template : Page → PageData → Option Text) (faults : Faults)
    (sessions : Option Manager) where
  -- A template that fails answers 500 instead of half a page.
  abbrev pub render_page : Page → PageData → Reply Text
  render_page page d = elim (template page d) [ none ↦ failed 500 | some html ↦ answered html ]

  unfoldable pub handle_index : Text → ℕ → PageRequest → Db → Reply Text × Option Cookie × Db
  handle_index fresh now r db =
      let (guest, db') = ensure_name faults sessions r.cookie fresh now db in
      (
        render_page polaroid (record no_data { active = bytes "polaroid"; name = guest.name }),
        guest.cookie,
        db',
      )

  unfoldable pub handle_upload_page : Text → ℕ → PageRequest → Db → Reply Text × Option Cookie × Db
  handle_upload_page fresh now r db =
      let (guest, db') = ensure_name faults sessions r.cookie fresh now db in
      (
        render_page upload (record no_data {
          active = bytes "upload";
          name = guest.name;
          recent = recent_of faults guest.id db';
        }),
        guest.cookie,
        db',
      )

  unfoldable pub handle_gallery_page : Text → ℕ → PageRequest → Db → Reply Text × Option Cookie × Db
  handle_gallery_page fresh now r db =
      let (guest, db') = ensure_name faults sessions r.cookie fresh now db in
      (
        render_page gallery
            (gallery_data faults guest.id guest.name (text_eq r.filter (bytes "loved")) db'),
        guest.cookie,
        db',
      )

  abbrev pub photo_page_of :
      Text → ℕ → PageRequest → Db → Result (Option PhotoMeta) → Reply Text × Option Cookie × Db
  photo_page_of fresh now r db err = (failed 500, none, db)
  photo_page_of fresh now r db (ok none) = (failed 404, none, db)
  photo_page_of fresh now r db (ok (some m)) =
      let (guest, db') = ensure_name faults sessions r.cookie fresh now db in
      (render_page photo (photo_data faults m guest db'), guest.cookie, db')

  unfoldable pub handle_photo_page :
      Text → ℕ → Text → PageRequest → Db → Reply Text × Option Cookie × Db
  handle_photo_page fresh now hash r db =
      if is_hex_sha256 hash
      then photo_page_of fresh now r db (photo_meta faults hash db).0
      else (failed 400, none, db)
