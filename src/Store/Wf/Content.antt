-- ===== src/Store/Wf/Content.antt =====
-- What the calls that write do to the photos' hashes and types.
use photo_server.Base.{
  ℕ, ◌≡◌, sym, subst, inl, inr, Bool, true, false, Bool-cases, Option-cases, List, [], ◌∷◌, map,
  All, All-keep, Text, arith,
}
use photo_server.Store.Schema.{PhotoRow, Db, Faults, session_upsert, photo_update_hidden}
use photo_server.Store.Sessions.{upsert_session}
use photo_server.Store.Photos.{
  Photo, find_visible, insert_photo, set_hidden, delete_rows, delete_photo,
}
use photo_server.Store.Hearts.{update_count, toggle_heart}
use photo_server.Store.Wf.Toggle.{Ends, toggle_none, toggle_some}
use photo_server.Store.Wf.Steps.{insert_photo-Inserts, delete_photo-cases}
use photo_server.Store.Wf.History.{Operation, upserts, inserts, hides, deletes, toggles, step}
use photo_server.Store.Wf.Evolution.{Evolves, same, writes}

-- A property of all photos' hashes and types.
module _ (P : Text → Text → Type 0) where
  abbrev pub AllPhotos : List PhotoRow → Type 0
  AllPhotos = All λ r. P r.content_hash r.mime

  AllPhotos-map :
      (f : PhotoRow → PhotoRow) (rows : List PhotoRow)
      → ((r : PhotoRow) → (f r).content_hash ≡ r.content_hash)
      → ((r : PhotoRow) → (f r).mime ≡ r.mime)
      → AllPhotos rows
      → AllPhotos (map f rows)
  AllPhotos-map f [] h m a = tt
  AllPhotos-map f (r ∷ rows) h m a = (rw (h r, m r) a.0, AllPhotos-map f rows h m a.1)

  AllPhotos-update_count :
      (g : ℕ → ℕ) (id : ℕ) (rows : List PhotoRow)
      → AllPhotos rows
      → AllPhotos (update_count g id rows)
  unfolding update_count
  AllPhotos-update_count g id rows = AllPhotos-map _ rows (λ r. ground arith) (λ r. ground arith)

  upsert_session-AllPhotos :
      (faults : Faults) (id name : Text) (now : ℕ) (db : Db)
      → AllPhotos db.photos
      → AllPhotos (upsert_session faults id name now db).1.photos
  unfolding upsert_session
  upsert_session-AllPhotos faults id name now db a = elim (Bool-cases (faults session_upsert)) [
    | inl e ↦ rw e a
    | inr e ↦ rw e a
  ]

  set_hidden-AllPhotos :
      (faults : Faults) (hash : Text) (hidden : Bool) (now : ℕ) (db : Db)
      → AllPhotos db.photos
      → AllPhotos (set_hidden faults hash hidden now db).1.photos
  unfolding set_hidden
  set_hidden-AllPhotos faults hash hidden now db a =
      elim (Bool-cases (faults photo_update_hidden)) [
        | inl e ↦ rw e a
        | inr e ↦ rw e (AllPhotos-map _ db.photos (λ r. ground arith) (λ r. ground arith) a)
      ]

  pub delete_photo-AllPhotos :
      (faults : Faults) (hash : Text) (db : Db)
      → AllPhotos db.photos
      → AllPhotos (delete_photo faults hash db).1.photos
  unfolding delete_rows
  delete_photo-AllPhotos faults hash db a = elim (delete_photo-cases faults hash db) [
    | inl e ↦ subst (λ d. AllPhotos d.photos) (sym e) a
    | inr e ↦ subst (λ d. AllPhotos d.photos) (sym e) (All-keep _ _ db.photos a)
  ]

  Ends-AllPhotos :
      (db : Db) (p : PhotoRow) (session : Text) (now : ℕ) (end : Db)
      → Ends db p session now end
      → AllPhotos db.photos
      → AllPhotos end.photos
  Ends-AllPhotos db p session now end (inl e) a = subst (λ d. AllPhotos d.photos) (sym e) a
  Ends-AllPhotos db p session now end (inr (inl (h, e))) a =
      subst (λ d. AllPhotos d.photos) (sym e) (AllPhotos-update_count _ p.id db.photos a)
  Ends-AllPhotos db p session now end (inr (inr (h, photo, known, e))) a =
      subst (λ d. AllPhotos d.photos) (sym e) (AllPhotos-update_count _ p.id db.photos a)

  toggle_heart-AllPhotos :
      (faults : Faults) (hash session : Text) (now : ℕ) (db : Db)
      → AllPhotos db.photos
      → AllPhotos (toggle_heart faults hash session now db).1.photos
  toggle_heart-AllPhotos faults hash session now db a =
      elim (Option-cases (find_visible hash db.photos)) [
        | inl e ↦ subst (λ d. AllPhotos d.photos) (sym (toggle_none faults hash session now db e)) a
        | inr (p, e) ↦
            Ends-AllPhotos db p session now _ (toggle_some faults hash session now db p e) a
      ]

  pub insert_photo-AllPhotos :
      (faults : Faults) (p : Photo) (db : Db)
      → P p.content_hash p.mime
      → AllPhotos db.photos
      → AllPhotos (insert_photo faults p db).1.photos
  insert_photo-AllPhotos faults p db here a = elim (insert_photo-Inserts faults p db) [
    | inl e ↦ subst (λ d. AllPhotos d.photos) (sym e) a
    | inr (fresh, known, e) ↦ subst (λ d. AllPhotos d.photos) (sym e) (here, a)
  ]

  step-AllPhotos :
      (db : Db) (faults : Faults) (op : Operation) (allows : Operation → Bool)
      → ((p : Photo) → allows (inserts p) ≡ false)
      → allows op ≡ true
      → AllPhotos db.photos
      → AllPhotos (step db (faults, op)).photos
  unfolding step
  step-AllPhotos db faults (upserts id name now) allows no_new may a =
      upsert_session-AllPhotos faults id name now db a
  step-AllPhotos db faults (inserts p) allows no_new may a = absurd (ground (arith, no_new p))
  step-AllPhotos db faults (hides hash hidden now) allows no_new may a =
      set_hidden-AllPhotos faults hash hidden now db a
  step-AllPhotos db faults (deletes hash) allows no_new may a =
      delete_photo-AllPhotos faults hash db a
  step-AllPhotos db faults (toggles hash session now) allows no_new may a =
      toggle_heart-AllPhotos faults hash session now db a

  -- Without insertions.
  pub Evolves-AllPhotos :
      {allows : Operation → Bool} {a b : Db}
      → ((p : Photo) → allows (inserts p) ≡ false)
      → Evolves allows a b
      → AllPhotos a.photos
      → AllPhotos b.photos
  Evolves-AllPhotos no_new same h = h
  Evolves-AllPhotos {allows} no_new (writes {later} e faults op may) h =
      step-AllPhotos later faults op allows no_new may (Evolves-AllPhotos no_new e h)
