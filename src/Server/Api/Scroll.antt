-- ===== src/Server/Api/Scroll.antt =====
-- Infinite scroll: a client that follows the cursors from the first page.
use photo_server.Base.{
  ℕ, zero, suc, ◌<◌, ◌≡◌, refl, ap, ◌∙◌, sym, List, [], ◌∷◌, ◌++◌, map, keep, take, drop, last?,
  length, length-take, length-drop, take-append-drop, take_all, length-keep-le, Text, arith,
  if◌then◌else◌, ok, err, Result, none, some, ◌==◌,
}
use native.Mathlib.Decide.{ℕ_discrete}
use mathlib.Core.Logic.{◌≢◌}
use photo_server.Store.Schema.{PhotoRow, HeartRow, Db, no_faults}
use photo_server.Store.Photos.{is_visible}
use photo_server.Store.Feeds.{PhotoListItem, to_item, on_page, gallery_photos}
use photo_server.Store.Feeds.Paging.{gallery_photos-page, last?-Below, keep-next_page}
use photo_server.Store.Wf.{Wf}
use photo_server.Store.Wf.Rows.{Below-keep}
use photo_server.Server.Api.{next_before, id_of}

abbrev listed : Result (List PhotoListItem) × Db → List PhotoListItem
listed (ok items, db) = items
listed (err, db) = []

-- The tiles that the client has collected when it asked, from the cursor `before` on, for one page
-- after the other until one came with the cursor 0; `fuel` bounds the number of pages.
unfoldable pub scroll : ℕ → Text → ℕ → ℕ → Db → List PhotoListItem
scroll zero viewer before limit db = []
scroll (suc fuel) viewer before limit db =
    let items = listed (gallery_photos no_faults viewer before limit db) in
    let next = next_before limit items in
    let rest = scroll fuel viewer next limit db in if next == 0 then items else items ++ rest

length-map {ℓ κ} :
    {A : Type ℓ} {B : Type κ} (f : A → B) (xs : List A) → length (map f xs) ≡ length xs
length-map f [] = refl
length-map f (x ∷ xs) = ap suc (length-map f xs)

map-append {ℓ κ} :
    {A : Type ℓ} {B : Type κ} (f : A → B) (xs ys : List A) → map f (xs ++ ys) ≡ map f xs ++ map f ys
map-append f [] ys = refl
map-append f (x ∷ xs) ys = ap (◌∷◌ (f x)) (map-append f xs ys)

last?-map :
    (hearts : List HeartRow) (viewer : Text) (rows : List PhotoRow)
    → id_of (last? (map (to_item hearts viewer) rows))
      ≡ elim (last? rows) [ none ↦ 0 | some r ↦ r.id ]
last?-map hearts viewer [] = refl
last?-map hearts viewer (r ∷ []) = refl
last?-map hearts viewer (r ∷ s ∷ rows) = last?-map hearts viewer (s ∷ rows)

last?-take :
    (limit : ℕ) (rows : List PhotoRow)
    → 0 < limit
    → length (take limit rows) ≡ limit
    → (r : PhotoRow) × (last? (take limit rows) ≡ some r)
last?-take zero rows h e = absurd (omega arith)
last?-take (suc limit) [] h e = absurd (omega arith)
last?-take (suc zero) (x ∷ rows) h e = (x, refl)
last?-take (suc (suc limit)) (x ∷ []) h e = absurd (omega arith)
last?-take (suc (suc limit)) (x ∷ y ∷ rows) h e =
    last?-take (suc limit) (y ∷ rows) (omega arith) (omega arith)

next_before_full :
    (limit : ℕ) (hearts : List HeartRow) (viewer : Text) (page : List PhotoRow) (r : PhotoRow)
    → length page ≡ limit
    → last? page ≡ some r
    → next_before limit (map (to_item hearts viewer) page) ≡ r.id
unfolding next_before
next_before_full limit hearts viewer page r n e =
    ground (arith, length-map (to_item hearts viewer) page, last?-map hearts viewer page)

next_before_short :
    (limit : ℕ) (hearts : List HeartRow) (viewer : Text) (page : List PhotoRow)
    → length page ≢ limit
    → next_before limit (map (to_item hearts viewer) page) ≡ 0
unfolding next_before
next_before_short limit hearts viewer page n =
    ground (arith, length-map (to_item hearts viewer) page)

module _ (viewer : Text) (limit : ℕ) (db : Db) (w : Wf db) (some_limit : 0 < limit) where
  scroll_full :
      (fuel before : ℕ) (r : PhotoRow)
      → length (take limit (keep (on_page before) db.photos)) ≡ limit
      → last? (take limit (keep (on_page before) db.photos)) ≡ some r
      → scroll (suc fuel) viewer before limit db
        ≡ map (to_item db.hearts viewer) (take limit (keep (on_page before) db.photos))
          ++ scroll fuel viewer r.id limit db
  unfolding scroll
  scroll_full fuel before r n e =
      let positive =
        (last?-Below (suc db.last_id) limit (keep (on_page before) db.photos) r
          (Below-keep (on_page before) (suc db.last_id) db.photos w.ids) e).1 in
      rw
        (
          gallery_photos-page viewer before limit db w,
          next_before_full limit db.hearts viewer _ r n e,
        )
        (ground arith)

  scroll_short :
      (fuel before : ℕ)
      → length (take limit (keep (on_page before) db.photos)) ≢ limit
      → scroll (suc fuel) viewer before limit db
        ≡ map (to_item db.hearts viewer) (take limit (keep (on_page before) db.photos))
  unfolding scroll
  scroll_short fuel before n =
      rw
        (
          gallery_photos-page viewer before limit db w,
          next_before_short limit db.hearts viewer (take limit (keep (on_page before) db.photos)) n,
        )
        refl

  scroll_rest :
      (fuel before : ℕ)
      → length (keep (on_page before) db.photos) < fuel
      → scroll fuel viewer before limit db
        ≡ map (to_item db.hearts viewer) (keep (on_page before) db.photos)
  scroll_rest zero before h = absurd (omega arith)
  scroll_rest (suc fuel) before h =
      elim (ℕ_discrete (length (take limit (keep (on_page before) db.photos))) limit) [
        | yes full ↦
            let page = keep (on_page before) db.photos in
            let (r, e) = last?-take limit page some_limit full in
            let next = keep-next_page (suc db.last_id) before limit db.photos r w.ids e in
            scroll_full fuel before r full e
            ∙ ap (λ rest. map (to_item db.hearts viewer) (take limit page) ++ rest)
                (scroll_rest fuel r.id
                    (omega (arith, ap length next, length-drop limit page, length-take limit page))
                  ∙ ap (map (to_item db.hearts viewer)) next)
            ∙ sym (map-append (to_item db.hearts viewer) (take limit page) (drop limit page))
            ∙ ap (map (to_item db.hearts viewer)) (take-append-drop limit page)
        | no short ↦
            let page = keep (on_page before) db.photos in
            scroll_short fuel before short
            ∙ ap (map (to_item db.hearts viewer))
                (take_all limit page (omega (arith, length-take limit page)))
      ]

keep-on_page_zero : (rows : List PhotoRow) → keep (on_page 0) rows ≡ keep is_visible rows
keep-on_page_zero [] = refl
keep-on_page_zero (r ∷ rows) = ground (arith, keep-on_page_zero rows)

-- In a well-formed database that does not change meanwhile, a client that follows the cursors sees
-- every visible photo once, newest first, whatever page size above 0 it asks for, in at most one
-- page more than there are photos.
pub scroll_complete :
    (viewer : Text) (limit fuel : ℕ) (db : Db)
    → Wf db
    → 0 < limit
    → length db.photos < fuel
    → scroll fuel viewer 0 limit db ≡ map (to_item db.hearts viewer) (keep is_visible db.photos)
scroll_complete viewer limit fuel db w h k =
    scroll_rest viewer limit db w h fuel 0 (omega (arith, length-keep-le (on_page 0) db.photos))
    ∙ ap (map (to_item db.hearts viewer)) (keep-on_page_zero db.photos)
