-- ===== src/Store/Wf/Toggle.antt =====
-- `toggle_heart`: the states in which it can end, and the invariant there.
use photo_server.Base.{
  ℕ, suc, ◌-◌, ◌<◌, ◌≡◌, ◌∙◌, sym, true, not, List, [], ◌∷◌, All, keep, count, subst, Text, ◌==◌,
  arith, Option, none, some, if◌then◌else◌, ◌⊎◌, inl, inr, Option-cases, All-map_of, All-keep,
}
use photo_server.Store.Schema.{PhotoRow, HeartRow, Db, Faults}
use photo_server.Store.Photos.{find_visible, references}
use photo_server.Store.Hearts.{heart_of, update_count, toggle_heart}
use photo_server.Store.Wf.{Wf, UniqueHearts, on_photo, has_photo, has_session}
use photo_server.Store.Wf.Rows.{Below-map, has_photo-map, UniqueHashes-map, any-keep_none}
use photo_server.Store.Wf.Hearts.{
  UniqueHearts-keep, count-keep-heart_of, count-heart_of-le, any_of_count_zero,
}

-- The rows of one pair of photo and session, and the hearts without them.
abbrev pub removed : Db → ℕ → Text → ℕ
removed db id session = count (heart_of id session) db.hearts

abbrev pub others : Db → ℕ → Text → List HeartRow
others db id session = keep (λ h. not (heart_of id session h)) db.hearts

abbrev pub unhearted : Db → ℕ → Text → Db
unhearted db id session = record db {
  photos = update_count (λ c. c - 1) id db.photos;
  hearts = others db id session;
}

abbrev pub hearted : Db → ℕ → Text → ℕ → Db
hearted db id session now = record db {
  photos = update_count suc id db.photos;
  hearts = record { photo_id = id; session_id = session; created_at = now } ∷ others db id session;
}

abbrev pub Ends : Db → PhotoRow → Text → ℕ → Db → Type 0
Ends db p session now end =
    (end ≡ db)
    ⊎ ((0 < removed db p.id session) × (end ≡ unhearted db p.id session))
    ⊎ ((removed db p.id session ≡ 0)
        × (has_photo db.photos p.id ≡ true)
        × (has_session db.sessions session ≡ true)
        × (end ≡ hearted db p.id session now))

pub toggle_none :
    (faults : Faults) (hash session : Text) (now : ℕ) (db : Db)
    → find_visible hash db.photos ≡ none
    → (toggle_heart faults hash session now db).1 ≡ db
unfolding toggle_heart
toggle_none faults hash session now db e = ground arith

pub toggle_some :
    (faults : Faults) (hash session : Text) (now : ℕ) (db : Db) (p : PhotoRow)
    → find_visible hash db.photos ≡ some p
    → Ends db p session now (toggle_heart faults hash session now db).1
unfolding toggle_heart
toggle_some faults hash session now db p e = ground arith

counted-update_count :
    (g : ℕ → ℕ) (id : ℕ) (rows : List PhotoRow) (old new : List HeartRow)
    → ((k : ℕ)
        → count (on_photo k) new
          ≡ (if k == id then g (count (on_photo k) old) else count (on_photo k) old))
    → All (λ r. r.heart_count ≡ count (on_photo r.id) old) rows
    → All (λ r. r.heart_count ≡ count (on_photo r.id) new) (update_count g id rows)
unfolding update_count
counted-update_count g id [] old new h a = tt
counted-update_count g id (r ∷ rows) old new h a =
    ground (arith, h r.id, counted-update_count g id rows old new h a.1)

update_keeps_id :
    (g : ℕ → ℕ) (id : ℕ) (r : PhotoRow)
    → (if r.id == id then record r { heart_count = g r.heart_count } else r).id ≡ r.id
update_keeps_id g id r = ground arith

pub update_keeps_hash :
    (g : ℕ → ℕ) (id : ℕ) (r : PhotoRow)
    → (if r.id == id then record r { heart_count = g r.heart_count } else r).content_hash
      ≡ r.content_hash
update_keeps_hash g id r = ground arith

pub has_photo-update_count :
    (g : ℕ → ℕ) (id : ℕ) (rows : List PhotoRow) (k : ℕ)
    → has_photo (update_count g id rows) k ≡ has_photo rows k
unfolding update_count
has_photo-update_count g id rows k =
    has_photo-map _ (update_keeps_id g id) (update_keeps_hash g id) rows k

uploaders-update_count :
    (g : ℕ → ℕ) (id : ℕ) (P : Option Text → Type 0) (rows : List PhotoRow)
    → All (λ r. P r.uploader_session_id) rows
    → All (λ r. P r.uploader_session_id) (update_count g id rows)
unfolding update_count
uploaders-update_count g id P [] a = tt
uploaders-update_count g id P (r ∷ rows) a = ground (arith, uploaders-update_count g id P rows a.1)

-- The invariant for new hearts and counts that fit one another.
updated-Wf :
    (g : ℕ → ℕ) (id : ℕ) (db : Db) (new : List HeartRow)
    → Wf db
    → ((k : ℕ)
        → count (on_photo k) new
          ≡ (if k == id then g (count (on_photo k) db.hearts) else count (on_photo k) db.hearts))
    → UniqueHearts new
    → All (λ h. has_photo db.photos h.photo_id ≡ true) new
    → All (λ h. has_session db.sessions h.session_id ≡ true) new
    → Wf (record db { photos = update_count g id db.photos; hearts = new })
unfolding update_count
updated-Wf g id db new w counts pairs photos sessions = record {
  ids =
      Below-map _ (update_keeps_id g id) (update_keeps_hash g id) (suc db.last_id) db.photos w.ids;
  hashes = UniqueHashes-map _ (update_keeps_id g id) (update_keeps_hash g id) db.photos w.hashes;
  sessions = w.sessions;
  pairs = pairs;
  counted = counted-update_count g id db.photos db.hearts new counts w.counted;
  heart_photos =
      All-map_of new (λ h e. has_photo-update_count g id db.photos h.photo_id ∙ e) photos;
  heart_sessions = sessions;
  uploaders =
      uploaders-update_count g id (λ u. references db.sessions u ≡ true) db.photos w.uploaders;
}

unhearted-Wf :
    (db : Db) (id : ℕ) (session : Text)
    → Wf db
    → 0 < removed db id session
    → Wf (unhearted db id session)
unhearted-Wf db id session w h =
    updated-Wf (λ c. c - 1) id db (others db id session) w
      (λ k. ground (
        arith,
        count-keep-heart_of k id session db.hearts,
        count-heart_of-le id session db.hearts w.pairs,
      ))
      (UniqueHearts-keep _ db.hearts w.pairs) (All-keep _ _ db.hearts w.heart_photos)
      (All-keep _ _ db.hearts w.heart_sessions)

hearted-Wf :
    (db : Db) (id : ℕ) (session : Text) (now : ℕ)
    → Wf db
    → removed db id session ≡ 0
    → has_photo db.photos id ≡ true
    → has_session db.sessions session ≡ true
    → Wf (hearted db id session now)
hearted-Wf db id session now w h photo known =
    updated-Wf suc id db _ w (λ k. ground (arith, count-keep-heart_of k id session db.hearts))
      (
        any-keep_none _ (heart_of id session) db.hearts (any_of_count_zero _ db.hearts h),
        UniqueHearts-keep _ db.hearts w.pairs,
      )
      (photo, All-keep _ _ db.hearts w.heart_photos)
      (known, All-keep _ _ db.hearts w.heart_sessions)

Ends-Wf :
    (db : Db) (p : PhotoRow) (session : Text) (now : ℕ) (end : Db)
    → Wf db
    → Ends db p session now end
    → Wf end
Ends-Wf db p session now end w (inl e) = subst Wf (sym e) w
Ends-Wf db p session now end w (inr (inl (h, e))) =
    subst Wf (sym e) (unhearted-Wf db p.id session w h)
Ends-Wf db p session now end w (inr (inr (h, photo, known, e))) =
    subst Wf (sym e) (hearted-Wf db p.id session now w h photo known)

pub toggle_heart-Wf :
    (faults : Faults) (hash session : Text) (now : ℕ) (db : Db)
    → Wf db
    → Wf (toggle_heart faults hash session now db).1
toggle_heart-Wf faults hash session now db w = elim (Option-cases (find_visible hash db.photos)) [
  | inl e ↦ subst Wf (sym (toggle_none faults hash session now db e)) w
  | inr (p, e) ↦ Ends-Wf db p session now _ w (toggle_some faults hash session now db p e)
]
