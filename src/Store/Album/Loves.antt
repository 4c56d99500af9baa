-- ===== src/Store/Album/Loves.antt =====
-- The tables after a toggle, seen as an album.
use photo_server.Base.{
  ℕ, suc, ◌-◌, ◌≡◌, refl, ap, ◌∙◌, sym, Bool, true, false, not, ◌&&◌, ◌||◌, Option-cases, inl, inr,
  some, List, Text, text_eq, text_eq_iff, find, any, ◌==◌, arith, if◌then◌else◌,
}
use photo_server.Store.Schema.{PhotoRow, HeartRow, Db}
use photo_server.Store.Photos.{has_hash, is_visible}
use photo_server.Store.Hearts.{heart_of, update_count}
use photo_server.Store.Hearts.Toggling.{any-keep-heart_of}
use photo_server.Store.Wf.{Wf, has_session}
use photo_server.Store.Wf.Toggle.{update_keeps_hash, others, unhearted, hearted}
use photo_server.Store.Wf.History.{toggles}
use photo_server.Store.Album.{
  Entry, Album, to_entry, entry_of, loved_by, view, set, is_some, toggle_entry, perform,
}
use photo_server.Store.Album.Lookup.{if_visible, map_row, find-map, same_id-same_hash}
use photo_server.Store.Album.Changes.{Album-ext, is_some-name_of}

pub find_of_visible :
    (hash : Text) (rows : List PhotoRow) (p : PhotoRow)
    → if_visible (find (has_hash hash) rows) ≡ some p
    → (find (has_hash hash) rows ≡ some p) × (is_visible p ≡ true)
find_of_visible hash rows p e = elim (Option-cases (find (has_hash hash) rows)) [
  | inl none_there ↦ absurd (ground (arith, none_there))
  | inr (r, q) ↦ ground (arith, q)
]

abbrev counted_row : (ℕ → ℕ) → ℕ → PhotoRow → PhotoRow
counted_row g id r = if r.id == id then record r { heart_count = g r.heart_count } else r

find-update_count :
    (g : ℕ → ℕ) (id : ℕ) (k : Text) (rows : List PhotoRow)
    → find (has_hash k) (update_count g id rows)
      ≡ map_row (counted_row g id) (find (has_hash k) rows)
unfolding update_count
find-update_count g id k rows = find-map (counted_row g id) (update_keeps_hash g id) k rows

toggle_entry_flips :
    (hash session : Text) (a : Album) (e : Entry) (b : Bool)
    → a.loves hash session ≡ b
    → e.hidden ≡ false
    → (b || is_some (a.names session)) ≡ true
    → toggle_entry hash session a (some e) ≡ record a {
      photos =
          set hash (some (record e { hearts = if b then e.hearts - 1 else suc e.hearts })) a.photos;
      loves = set hash (set session (not b) (a.loves hash)) a.loves;
    }
toggle_entry_flips hash session a e b loved shown may = rw (loved, shown, may) refl

-- The one row that a toggle updates, and the hearts that it flips.
module _ (hash session : Text) (db : Db) (p : PhotoRow) (w : Wf db)
    (there : find (has_hash hash) db.photos ≡ some p) where
  entry_of-update_count :
      (g : ℕ → ℕ) (k : Text)
      → entry_of (find (has_hash k) (update_count g p.id db.photos))
        ≡ set hash
            (some (record (to_entry p) { hearts = g p.heart_count }))
            (λ j. entry_of (find (has_hash j) db.photos))
            k
  entry_of-update_count g k = elim (Option-cases (find (has_hash k) db.photos)) [
    | inl gone ↦
        ground (arith, find-update_count g p.id k db.photos, gone, there, text_eq_iff hash k)
    | inr (r, q) ↦ ground (
      arith,
      find-update_count g p.id k db.photos,
      q,
      there,
      text_eq_iff hash k,
      same_id-same_hash hash k (suc db.last_id) db.photos p r w.ids there q,
    )
  ]

  abbrev was : Bool
  was = any (heart_of p.id session) db.hearts

  loved_by-update_count :
      (g : ℕ → ℕ) (new : List HeartRow)
      → ((j : ℕ) (u : Text)
          → any (heart_of j u) new
            ≡ (if (j == p.id) && text_eq u session then not was else any (heart_of j u) db.hearts))
      → (k t : Text)
      → loved_by t new (find (has_hash k) (update_count g p.id db.photos))
        ≡ set {A = Text → Bool} hash
            (set session (not was) (λ u. loved_by u db.hearts (find (has_hash hash) db.photos)))
            (λ j u. loved_by u db.hearts (find (has_hash j) db.photos))
            k
            t
  loved_by-update_count g new flips k t = elim (Option-cases (find (has_hash k) db.photos)) [
    | inl gone ↦
        ground (arith, find-update_count g p.id k db.photos, gone, there, text_eq_iff hash k)
    | inr (r, q) ↦ ground (
      arith,
      find-update_count g p.id k db.photos,
      q,
      there,
      flips r.id t,
      text_eq_iff hash k,
      text_eq_iff session t,
      text_eq_iff t session,
      same_id-same_hash hash k (suc db.last_id) db.photos p r w.ids there q,
    )
  ]

  view-flip :
      (now : ℕ) (g : ℕ → ℕ) (new : List HeartRow)
      → is_visible p ≡ true
      → (was || has_session db.sessions session) ≡ true
      → g p.heart_count ≡ (if was then p.heart_count - 1 else suc p.heart_count)
      → ((j : ℕ) (u : Text)
          → any (heart_of j u) new
            ≡ (if (j == p.id) && text_eq u session then not was else any (heart_of j u) db.hearts))
      → view (record db { photos = update_count g p.id db.photos; hearts = new })
        ≡ perform (toggles hash session now) (view db)
  unfolding perform
  view-flip now g new shown may counts flips =
      Album-ext (λ k. refl) (λ k. rw (sym counts) (entry_of-update_count g k))
        (λ k t. loved_by-update_count g new flips k t)
      ∙ sym (
          ap (λ found. toggle_entry hash session (view db) (entry_of found)) there
          ∙ toggle_entry_flips hash session (view db) (to_entry p) was
              (ap (loved_by session db.hearts) there) (ap not shown)
              (rw (is_some-name_of db.sessions session) may))

  pub view-unhearted :
      (now : ℕ)
      → is_visible p ≡ true
      → was ≡ true
      → view (unhearted db p.id session) ≡ perform (toggles hash session now) (view db)
  view-unhearted now shown loved =
      view-flip now (λ c. c - 1) (others db p.id session) shown (ground arith) (rw loved refl)
        (λ j u. rw loved (any-keep-heart_of p.id j session u db.hearts))

  pub view-hearted :
      (now : ℕ)
      → is_visible p ≡ true
      → was ≡ false
      → has_session db.sessions session ≡ true
      → view (hearted db p.id session now) ≡ perform (toggles hash session now) (view db)
  view-hearted now shown new known =
      view-flip now suc (hearted db p.id session now).hearts shown (ground arith) (rw new refl)
        (λ j u. ground (
          arith,
          any-keep-heart_of p.id j session u db.hearts,
          text_eq_iff session u,
          text_eq_iff u session,
        ))
