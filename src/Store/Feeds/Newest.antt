-- ===== src/Store/Feeds/Newest.antt =====
-- Where a new photo stands in the gallery.
use photo_server.Base.{
  ℕ, suc, ◌<◌, ◌≤◌, ◌≡◌, refl, ap, ◌∙◌, false, List, [], ◌∷◌, map, keep, take, All, All-keep, Text,
  ok, arith,
}
use photo_server.Store.Schema.{PhotoRow, Db, Faults, no_faults}
use photo_server.Store.Photos.{Photo, new_row, insert_photo}
use photo_server.Store.Feeds.{
  PhotoListItem, insert_by, order_by, newest, select, on_page, to_item, gallery_photos,
}
use photo_server.Store.Feeds.Order.{All-order_by}
use photo_server.Store.Wf.{Wf, Below}
use photo_server.Store.Wf.Rows.{has_photo_above}
use photo_server.Store.Album.Changes.{no_heart}

insert_photo_created :
    (faults : Faults) (p : Photo) (db : Db) (id : ℕ)
    → (insert_photo faults p db).0 ≡ ok (id, false)
    → (id ≡ suc db.last_id)
      × ((insert_photo faults p db).1
          ≡ record db { photos = new_row (suc db.last_id) p ∷ db.photos; last_id = suc db.last_id })
unfolding insert_photo
insert_photo_created faults p db id e = ground arith

Below-All : (n m : ℕ) (rows : List PhotoRow) → Below n rows → n ≤ m → All (λ r. r.id < m) rows
Below-All n m [] b h = tt
Below-All n m (r ∷ rows) b h = (omega (arith, b.0), Below-All r.id m rows b.1 (omega (arith, b.0)))

insert_by_first :
    (x : PhotoRow) (ys : List PhotoRow) → All (λ y. y.id < x.id) ys → insert_by newest x ys ≡ x ∷ ys
unfolding insert_by
insert_by_first x [] a = refl
insert_by_first x (y ∷ ys) a = ground (arith, a.0)

new_first :
    (n : ℕ) (p : Photo) (db : Db)
    → Wf db
    → select (on_page 0) newest (suc n) (new_row (suc db.last_id) p ∷ db.photos)
      ≡ new_row (suc db.last_id) p ∷ select (on_page 0) newest n db.photos
unfolding select order_by
new_first n p db w = ap (take (suc n)) (
    insert_by_first (new_row (suc db.last_id) p) (order_by newest (keep (on_page 0) db.photos)) (
      All-order_by newest _ _ (
        All-keep _ (on_page 0) db.photos
          (Below-All (suc db.last_id) (suc db.last_id) db.photos w.ids (omega arith)))))

abbrev pub new_item : ℕ → Photo → PhotoListItem
new_item id p = record {
  id = id;
  hash = p.content_hash;
  mime = p.mime;
  display_name = p.display_name;
  uploaded_at = p.uploaded_at;
  heart_count = 0;
  hearted = false;
}

page_of_new :
    (viewer : Text) (n : ℕ) (p : Photo) (db : Db)
    → Wf db
    → map
        (to_item db.hearts viewer)
        (select (on_page 0) newest (suc n) (new_row (suc db.last_id) p ∷ db.photos))
      ≡ new_item (suc db.last_id) p
        ∷ map (to_item db.hearts viewer) (select (on_page 0) newest n db.photos)
page_of_new viewer n p db w =
    ap (map (to_item db.hearts viewer)) (new_first n p db w)
    ∙ ap
        (λ b.
          record (new_item (suc db.last_id) p) { hearted = b }
          ∷ map (to_item db.hearts viewer) (select (on_page 0) newest n db.photos))
        (no_heart (suc db.last_id) viewer db.photos db.hearts
          (has_photo_above (suc db.last_id) (suc db.last_id) db.photos w.ids (omega arith))
          w.heart_photos)

-- When a well-formed database takes a photo that is not a duplicate, the gallery's first page, for
-- whoever looks at it and with no failing query, begins with that photo, with the id that was answered
-- and no heart, and goes on with the photos that it began with before.
pub gallery_photos-insert_photo :
    (faults : Faults) (p : Photo) (db : Db) (id : ℕ) (viewer : Text) (n : ℕ)
    (items : List PhotoListItem)
    → Wf db
    → (insert_photo faults p db).0 ≡ ok (id, false)
    → (gallery_photos no_faults viewer 0 n db).0 ≡ ok items
    → (gallery_photos no_faults viewer 0 (suc n) (insert_photo faults p db).1).0
      ≡ ok (new_item id p ∷ items)
unfolding gallery_photos
gallery_photos-insert_photo faults p db id viewer n items w e page =
    let (same_id, same_db) = insert_photo_created faults p db id e in
    ap (λ d. ok (map (to_item d.hearts viewer) (select (on_page 0) newest (suc n) d.photos)))
      same_db
    ∙ ap ok (page_of_new viewer n p db w)
    ∙ cc (page, same_id)
