-- ===== src/Server/Serve/Showing.antt =====
-- What the pages and the feeds write: the session of the guest who looks at them.
use photo_server.Base.{
  ℕ, ◌≡◌, refl, Bool, true, Option, none, some, [], Text, Result, ok, err, inl, inr, Bool-cases,
}
use photo_server.Store.Schema.{SessionRow, Db, Faults, feed_select}
use photo_server.Store.Photos.{PhotoMeta, photo_meta}
use photo_server.Store.Feeds.{gallery_photos, session_photos}
use photo_server.Store.Wf.History.{Operation, upserts}
use photo_server.Store.Wf.Evolution.{Evolves, same, Evolves-to}
use photo_server.Session.{Manager, Cookie, ensure}
use photo_server.Server.Http.{is_hex_sha256}
use photo_server.Server.Api.{
  FeedRequest, photos_page, viewer_of, handle_photos, uploads_of, handle_my_uploads,
}
use photo_server.Server.Pages.{
  Page, PageData, PageRequest, ensure_name, handle_index, handle_upload_page, handle_gallery_page,
  photo_page_of, handle_photo_page,
}
use photo_server.Server.Serve.Writing.{ensure-Evolves}

photos_page-keeps :
    (faults : Faults) (r : FeedRequest) (viewer : Text) (db : Db)
    → (photos_page faults r viewer db).1 ≡ db
unfolding gallery_photos
photos_page-keeps faults r viewer db = elim (Bool-cases (faults feed_select)) [
  | inl e ↦ rw e refl
  | inr e ↦ rw e refl
]

uploads_of-keeps :
    (faults : Faults) (limit : Text) (cookie : Option Cookie) (s : Result SessionRow) (db : Db)
    → (uploads_of faults limit cookie s db).2 ≡ db
unfolding session_photos
uploads_of-keeps faults limit cookie err db = refl
uploads_of-keeps faults limit cookie (ok s) db = elim (Bool-cases (faults feed_select)) [
  | inl e ↦ rw e refl
  | inr e ↦ rw e refl
]

module _ {allows : Operation → Bool}
    (may : (id name : Text) (now : ℕ) → allows (upserts id name now) ≡ true) (faults : Faults)
    (fresh : Text) (now : ℕ) where
  pub handle_photos-Evolves :
      (sessions : Option Manager) (r : FeedRequest) (db : Db)
      → Evolves allows db (handle_photos faults sessions fresh now r db).2
  unfolding handle_photos
  handle_photos-Evolves none r db = Evolves-to same (photos_page-keeps faults r [] db)
  handle_photos-Evolves (some m) r db =
      let b = ensure faults m r.cookie fresh now db in
      Evolves-to (ensure-Evolves may faults m r.cookie fresh now db)
        (photos_page-keeps faults r (viewer_of b.0.session) b.1)

  pub handle_my_uploads-Evolves :
      (sessions : Option Manager) (limit : Text) (cookie : Option Text) (db : Db)
      → Evolves allows db (handle_my_uploads faults sessions fresh now limit cookie db).2
  unfolding handle_my_uploads
  handle_my_uploads-Evolves none limit cookie db = same
  handle_my_uploads-Evolves (some m) limit cookie db =
      let b = ensure faults m cookie fresh now db in
      Evolves-to (ensure-Evolves may faults m cookie fresh now db)
        (uploads_of-keeps faults limit b.0.cookie b.0.session b.1)

  ensure_name-Evolves :
      (sessions : Option Manager) (cookie : Option Text) (db : Db)
      → Evolves allows db (ensure_name faults sessions cookie fresh now db).1
  unfolding ensure_name
  ensure_name-Evolves none cookie db = same
  ensure_name-Evolves (some m) cookie db = ensure-Evolves may faults m cookie fresh now db

  module _ (template : Page → PageData → Option Text) (sessions : Option Manager) where
    pub handle_index-Evolves :
        (r : PageRequest) (db : Db)
        → Evolves allows db (handle_index template faults sessions fresh now r db).2
    unfolding handle_index
    handle_index-Evolves r db = ensure_name-Evolves sessions r.cookie db

    pub handle_upload_page-Evolves :
        (r : PageRequest) (db : Db)
        → Evolves allows db (handle_upload_page template faults sessions fresh now r db).2
    unfolding handle_upload_page
    handle_upload_page-Evolves r db = ensure_name-Evolves sessions r.cookie db

    pub handle_gallery_page-Evolves :
        (r : PageRequest) (db : Db)
        → Evolves allows db (handle_gallery_page template faults sessions fresh now r db).2
    unfolding handle_gallery_page
    handle_gallery_page-Evolves r db = ensure_name-Evolves sessions r.cookie db

    photo_page_of-Evolves :
        (r : PageRequest) (db : Db) (found : Result (Option PhotoMeta))
        → Evolves allows db (photo_page_of template faults sessions fresh now r db found).2
    photo_page_of-Evolves r db err = same
    photo_page_of-Evolves r db (ok none) = same
    photo_page_of-Evolves r db (ok (some m)) = ensure_name-Evolves sessions r.cookie db

    pub handle_photo_page-Evolves :
        (hash : Text) (r : PageRequest) (db : Db)
        → Evolves allows db (handle_photo_page template faults sessions fresh now hash r db).2
    unfolding handle_photo_page
    handle_photo_page-Evolves hash r db = elim (Bool-cases (is_hex_sha256 hash)) [
      | inl e ↦ rw e (photo_page_of-Evolves r db (photo_meta faults hash db).0)
      | inr e ↦ rw e same
    ]
