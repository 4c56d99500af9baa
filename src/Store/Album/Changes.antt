-- ===== src/Store/Album/Changes.antt =====
-- The tables after a call that succeeds, seen as an album: guests, and photos that come, go and hide.
use photo_server.Base.{
  ℕ, suc, ◌≡◌, refl, ap, ◌∙◌, subst, All, Bool, true, false, not, ◌||◌, Bool-cases, Option-cases,
  inl, inr, Option, none, some, List, [], ◌∷◌, map, keep, Text, text_eq, text_eq_iff, is_empty,
  find, any, arith, if◌then◌else◌,
}
use photo_server.Store.Schema.{SessionRow, PhotoRow, HeartRow, Db}
use photo_server.Store.Sessions.{upsert_row, find_session}
use photo_server.Store.Sessions.Names.{find_session-upsert_row}
use photo_server.Store.Photos.{Photo, has_hash, references, session_or_null, new_row, delete_rows}
use photo_server.Store.Hearts.{heart_of}
use photo_server.Store.Wf.{Wf, has_photo, has_session}
use photo_server.Store.Wf.Rows.{has_photo_above, deletes}
use photo_server.Store.Photos.Content.{
  find_of_any-false, find_of_any-true, find-keep, deletes-find, deletes_none, any-keep_gone,
}
use photo_server.Store.Photos.Moderation.{hide}
use photo_server.Store.Wf.History.{upserts, inserts, hides}
use photo_server.Store.Wf.History as History
use photo_server.Store.Album.{
  Album, name_of, entry_of, loved_by, view, set, is_some, hide_entry, perform,
}
use photo_server.Store.Album.Lookup.{same_id-same_hash}

pub Album-ext :
    {a b : Album}
    → ((k : Text) → a.names k ≡ b.names k)
    → ((k : Text) → a.photos k ≡ b.photos k)
    → ((k t : Text) → a.loves k t ≡ b.loves k t)
    → a ≡ b
Album-ext n p l = λ i. record { names = λ k. n k i; photos = λ k. p k i; loves = λ k t. l k t i }

pub view-upsert :
    (id name : Text) (now : ℕ) (db : Db)
    → view (record db { sessions = upsert_row id name now db.sessions })
      ≡ perform (upserts id name now) (view db)
unfolding perform
view-upsert id name now db =
    Album-ext (λ k. ground (arith, find_session-upsert_row id name now db.sessions k)) (λ k. refl)
      (λ k t. refl)

entry_of-hide :
    (hash k : Text) (hidden : Bool) (now : ℕ) (rows : List PhotoRow)
    → entry_of (find (has_hash k) (map (hide hash (if hidden then some now else none)) rows))
      ≡ set hash
          (hide_entry hidden (entry_of (find (has_hash hash) rows)))
          (λ j. entry_of (find (has_hash j) rows))
          k
entry_of-hide hash k hidden now [] = ground arith
entry_of-hide hash k hidden now (r ∷ rows) = ground (
  arith,
  text_eq_iff r.content_hash hash,
  text_eq_iff r.content_hash k,
  text_eq_iff hash k,
  entry_of-hide hash k hidden now rows,
)

loved_by-hide :
    (hash k t : Text) (at : Option ℕ) (hearts : List HeartRow) (rows : List PhotoRow)
    → loved_by t hearts (find (has_hash k) (map (hide hash at) rows))
      ≡ loved_by t hearts (find (has_hash k) rows)
loved_by-hide hash k t at hearts [] = refl
loved_by-hide hash k t at hearts (r ∷ rows) = ground (arith, loved_by-hide hash k t at hearts rows)

pub view-hide :
    (hash : Text) (hidden : Bool) (now : ℕ) (db : Db)
    → view (record db { photos = map (hide hash (if hidden then some now else none)) db.photos })
      ≡ perform (hides hash hidden now) (view db)
unfolding perform
view-hide hash hidden now db =
    Album-ext (λ k. refl) (λ k. entry_of-hide hash k hidden now db.photos)
      (λ k t. loved_by-hide hash k t (if hidden then some now else none) db.hearts db.photos)

-- A photo that is found under another hash stays.
deletes_other :
    (hash k : Text) (db : Db) (r : PhotoRow)
    → Wf db
    → text_eq hash k ≡ false
    → find (has_hash k) db.photos ≡ some r
    → deletes hash db.photos r.id ≡ false
deletes_other hash k db r w e q = elim (Bool-cases (any (has_hash hash) db.photos)) [
  | inl there ↦
      let (p, f, same) = find_of_any-true hash db.photos there in
      ground (
        arith,
        deletes-find hash db.photos p r.id w.hashes f,
        same_id-same_hash k hash (suc db.last_id) db.photos r p w.ids q f,
        text_eq_iff hash k,
        text_eq_iff k hash,
      )
  | inr gone ↦ deletes_none hash db.photos r.id gone
]

loved_by-delete :
    (hash k t : Text) (db : Db)
    → Wf db
    → loved_by t
        (keep (λ h. not (deletes hash db.photos h.photo_id)) db.hearts)
        (if text_eq hash k then none else find (has_hash k) db.photos)
      ≡ set {A = Text → Bool} hash
          (λ s. false)
          (λ j s. loved_by s db.hearts (find (has_hash j) db.photos))
          k
          t
loved_by-delete hash k t db w = elim (Bool-cases (text_eq hash k)) [
  | inl e ↦ rw e refl
  | inr e ↦ rw e (elim (Option-cases (find (has_hash k) db.photos)) [
    | inl none_there ↦ rw none_there refl
    | inr (r, q) ↦ rw q (
        any-keep_gone (deletes hash db.photos) r.id t db.hearts
        ∙ ap (λ b. if b then false else any (heart_of r.id t) db.hearts)
            (deletes_other hash k db r w e q))
  ])
]

entry_of-delete :
    (hash k : Text) (found : Option PhotoRow)
    → entry_of (if text_eq hash k then none else found)
      ≡ (if text_eq hash k then none else entry_of found)
entry_of-delete hash k found = ground arith

pub view-delete :
    (hash : Text) (db : Db)
    → Wf db
    → view (delete_rows hash db) ≡ perform (History.deletes hash) (view db)
unfolding perform delete_rows
view-delete hash db w =
    Album-ext (λ k. refl) (λ k. ap entry_of (find-keep hash k db.photos) ∙ entry_of-delete hash k _)
      (λ k t. ap (loved_by t _) (find-keep hash k db.photos) ∙ loved_by-delete hash k t db w)

pub no_heart :
    (id : ℕ) (t : Text) (rows : List PhotoRow) (hearts : List HeartRow)
    → has_photo rows id ≡ false
    → All (λ h. has_photo rows h.photo_id ≡ true) hearts
    → any (heart_of id t) hearts ≡ false
no_heart id t rows [] e a = refl
no_heart id t rows (h ∷ hearts) e a = ground (
  arith,
  no_heart id t rows hearts e a.1,
  λ (q : h.photo_id ≡ id). subst (λ k. has_photo rows k ≡ true) q a.0,
)

pub is_some-name_of :
    (rows : List SessionRow) (id : Text)
    → is_some (name_of (find_session id rows)) ≡ has_session rows id
unfolding find_session
is_some-name_of [] id = refl
is_some-name_of (s ∷ rows) id = ground (arith, is_some-name_of rows id)

pub known_uploader :
    (id : Text) (rows : List SessionRow)
    → (is_empty id || is_some (name_of (find_session id rows)))
      ≡ references rows (session_or_null id)
known_uploader id rows = elim (Bool-cases (is_empty id)) [
  | inl e ↦ rw e refl
  | inr e ↦ rw e (is_some-name_of rows id)
]

pub view-insert :
    (p : Photo) (db : Db)
    → Wf db
    → any (has_hash p.content_hash) db.photos ≡ false
    → references db.sessions (session_or_null p.uploader_session_id) ≡ true
    → view (record db { photos = new_row (suc db.last_id) p ∷ db.photos; last_id = suc db.last_id })
      ≡ perform (inserts p) (view db)
unfolding perform
view-insert p db w fresh known =
    let none_there = find_of_any-false p.content_hash db.photos fresh in
    rw (known_uploader p.uploader_session_id db.sessions, known)
      (Album-ext (λ k. refl) (λ k. ground (arith, none_there))
        (λ k t. ground (
          arith,
          none_there,
          text_eq_iff p.content_hash k,
          no_heart (suc db.last_id) t db.photos db.hearts
              (has_photo_above (suc db.last_id) (suc db.last_id) db.photos w.ids (omega arith))
              w.heart_photos,
        )))
