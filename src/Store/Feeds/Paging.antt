-- ===== src/Store/Feeds/Paging.antt =====
-- Keyset pagination: the page after a cursor is what the table holds below it.
use photo_server.Base.{
  ℕ, zero, suc, ◌<◌, ◌≤◌, ◌≡◌, refl, ◌∙◌, List, [], ◌∷◌, map, keep, take, drop, last?, Text, ltb,
  arith, ok, some, ◌⊎◌, All, subst,
}
use mathlib.Core.Option.{some-injective}
use photo_server.Store.Schema.{PhotoRow, Db, no_faults}
use photo_server.Store.Feeds.{to_item, on_page, gallery_photos}
use photo_server.Store.Feeds.Order.{order_by-newest}
use photo_server.Store.Wf.{Wf, Below}
use photo_server.Store.Wf.Rows.{Below-keep, Below-mono}

-- In a well-formed database and with no failing statement, a page is a prefix of the visible rows
-- below the cursor, as the table has them.
pub gallery_photos-page :
    (viewer : Text) (before limit : ℕ) (db : Db)
    → Wf db
    → gallery_photos no_faults viewer before limit db
      ≡ (ok (map (to_item db.hearts viewer) (take limit (keep (on_page before) db.photos))), db)
unfolding gallery_photos
gallery_photos-page viewer before limit db w =
    rw
      (order_by-newest (suc db.last_id) (keep (on_page before) db.photos)
        (Below-keep (on_page before) (suc db.last_id) db.photos w.ids))
      refl

Below-pos : (n : ℕ) (rows : List PhotoRow) → Below n rows → 0 < n
Below-pos n [] b = b
Below-pos n (r ∷ rows) b = omega arith

keep_none : (n : ℕ) (rows : List PhotoRow) → Below n rows → keep (λ x. ltb x.id n) rows ≡ rows
keep_none n [] b = refl
keep_none n (r ∷ rows) b =
    ground (arith, keep_none n rows (Below-mono r.id n rows (omega arith) b.1))

pub last?-Below :
    (n limit : ℕ) (rows : List PhotoRow) (r : PhotoRow)
    → Below n rows
    → last? (take limit rows) ≡ some r
    → (r.id < n) × (0 < r.id)
last?-Below n zero rows r b e = absurd (cc)
last?-Below n (suc limit) [] r b e = absurd (cc)
last?-Below n (suc zero) (x ∷ rows) r b e = ground (arith, Below-pos x.id rows b.1)
last?-Below n (suc (suc limit)) (x ∷ []) r b e = ground arith
last?-Below n (suc (suc limit)) (x ∷ y ∷ rows) r b e =
    let (low, high) = last?-Below x.id (suc limit) (y ∷ rows) r b.1 e in (omega arith, omega arith)

-- Below the last row of a page stands what the page left out.
pub keep-last? :
    (n limit : ℕ) (rows : List PhotoRow) (r : PhotoRow)
    → Below n rows
    → last? (take limit rows) ≡ some r
    → keep (λ x. ltb x.id r.id) rows ≡ drop limit rows
keep-last? n zero rows r b e = cc
keep-last? n (suc limit) [] r b e = cc
keep-last? n (suc zero) (x ∷ rows) r b e = ground (arith, keep_none x.id rows b.1)
keep-last? n (suc (suc limit)) (x ∷ []) r b e = ground arith
keep-last? n (suc (suc limit)) (x ∷ y ∷ rows) r b e = ground (
  arith,
  keep-last? x.id (suc limit) (y ∷ rows) r b.1 e,
  last?-Below x.id (suc limit) (y ∷ rows) r b.1 e,
)

pub keep-on_page :
    (before id : ℕ) (rows : List PhotoRow)
    → 0 < id
    → (before ≡ 0) ⊎ (id ≤ before)
    → keep (on_page id) rows ≡ keep (λ x. ltb x.id id) (keep (on_page before) rows)
keep-on_page before id [] h k = refl
keep-on_page before id (r ∷ rows) h k = ground (arith, keep-on_page before id rows h k)

abbrev Fits : ℕ → PhotoRow → Type 0
Fits before r = (before ≡ 0) ⊎ (r.id ≤ before)

All-Fits : (before : ℕ) (rows : List PhotoRow) → All (Fits before) (keep (on_page before) rows)
All-Fits before [] = tt
All-Fits before (r ∷ rows) = ground (arith, All-Fits before rows)

last?-All :
    (P : PhotoRow → Type 0) (limit : ℕ) (rows : List PhotoRow) (r : PhotoRow)
    → All P rows
    → last? (take limit rows) ≡ some r
    → P r
last?-All P zero rows r a e = absurd (cc)
last?-All P (suc limit) [] r a e = absurd (cc)
last?-All P (suc zero) (x ∷ rows) r a e = subst P (some-injective _ _ e) a.0
last?-All P (suc (suc limit)) (x ∷ []) r a e = subst P (some-injective _ _ e) a.0
last?-All P (suc (suc limit)) (x ∷ y ∷ rows) r a e = last?-All P (suc limit) (y ∷ rows) r a.1 e

-- After a page that ends with `r`, the page at the cursor `r.id` is what is left of the visible
-- rows below the page's own cursor.
pub keep-next_page :
    (n before limit : ℕ) (rows : List PhotoRow) (r : PhotoRow)
    → Below n rows
    → last? (take limit (keep (on_page before) rows)) ≡ some r
    → keep (on_page r.id) rows ≡ drop limit (keep (on_page before) rows)
keep-next_page n before limit rows r b e =
    let page = keep (on_page before) rows in
    let sorted : Below n page = Below-keep (on_page before) n rows b in
    keep-on_page before r.id rows (last?-Below n limit page r sorted e).1
      (last?-All (Fits before) limit page r (All-Fits before rows) e)
    ∙ keep-last? n limit page r sorted e
