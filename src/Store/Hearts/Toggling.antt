-- ===== src/Store/Hearts/Toggling.antt =====
-- What `toggle_heart` does to the hearts, to the count and on an error.
use photo_server.Base.{
  ℕ, suc, ◌-◌, ◌<◌, ◌≡◌, refl, Bool, true, false, not, ◌&&◌, List, [], ◌∷◌, any, keep, count, find,
  text_eq, text_eq_iff, Text, ◌==◌, arith, Option, some, if◌then◌else◌, inl, inr, ok, err, Result,
  Bool-cases,
}
use photo_server.Store.Schema.{PhotoRow, HeartRow, Db, Faults, no_faults}
use photo_server.Store.Photos.{has_hash, is_visible, find_visible}
use photo_server.Store.Hearts.{Toggled, heart_of, update_count, toggle_heart}
use photo_server.Store.Wf.Toggle.{unhearted, hearted}
use photo_server.Store.Wf.{Wf, Below, has_photo, has_session}

pub find-Below :
    (p : PhotoRow → Bool) (n : ℕ) (rows : List PhotoRow) (r : PhotoRow)
    → Below n rows
    → find p rows ≡ some r
    → r.id < n
find-Below p n [] r b e = cc
find-Below p n (x ∷ rows) r b e = ground (arith, find-Below p x.id rows r b.1)

has_photo-find :
    (p : PhotoRow → Bool) (rows : List PhotoRow) (r : PhotoRow)
    → find p rows ≡ some r
    → has_photo rows r.id ≡ true
has_photo-find p [] r e = cc
has_photo-find p (x ∷ rows) r e = ground (arith, has_photo-find p rows r)

-- The row that the toggle updates is the one that it reads the count from.
find-update_count :
    (p : PhotoRow → Bool) (g : ℕ → ℕ) (n : ℕ) (rows : List PhotoRow) (r : PhotoRow)
    → Below n rows
    → find p rows ≡ some r
    → find (λ x. x.id == r.id) (update_count g r.id rows)
      ≡ some (record r { heart_count = g r.heart_count })
unfolding update_count
find-update_count p g n [] r b e = cc
find-update_count p g n (x ∷ rows) r b e =
    ground (arith, find-Below p x.id rows r b.1, find-update_count p g x.id rows r b.1)

any-keep_self {ℓ} :
    {A : Type ℓ} (q : A → Bool) (xs : List A) → any q (keep (λ x. not (q x)) xs) ≡ false
any-keep_self q [] = refl
any-keep_self q (x ∷ xs) = ground (arith, any-keep_self q xs)

pub count-pos_of_any {ℓ} :
    {A : Type ℓ} (q : A → Bool) (xs : List A) → any q xs ≡ true → 0 < count q xs
count-pos_of_any q [] h = absurd (cc)
count-pos_of_any q (x ∷ xs) h = ground (arith, count-pos_of_any q xs)

pub count_of_any-false {ℓ} :
    {A : Type ℓ} (q : A → Bool) (xs : List A) → any q xs ≡ false → count q xs ≡ 0
count_of_any-false q [] h = refl
count_of_any-false q (x ∷ xs) h = ground (arith, count_of_any-false q xs)

pub any-keep-heart_of :
    (id k : ℕ) (s t : Text) (hs : List HeartRow)
    → any (heart_of k t) (keep (λ h. not (heart_of id s h)) hs)
      ≡ (if (k == id) && text_eq t s then false else any (heart_of k t) hs)
any-keep-heart_of id k s t [] = ground arith
any-keep-heart_of id k s t (h ∷ hs) = ground (
  arith,
  text_eq_iff h.session_id s,
  text_eq_iff h.session_id t,
  text_eq_iff t s,
  any-keep-heart_of id k s t hs,
)

-- A toggle takes a heart away,
pub toggle_heart_off :
    (hash session : Text) (now : ℕ) (db : Db) (p : PhotoRow)
    → Wf db
    → find_visible hash db.photos ≡ some p
    → any (heart_of p.id session) db.hearts ≡ true
    → toggle_heart no_faults hash session now db ≡ (
      ok (some (record { count = p.heart_count - 1; hearted = false })),
      unhearted db p.id session,
    )
unfolding toggle_heart
toggle_heart_off hash session now db p w e was = ground (
  arith,
  count-pos_of_any (heart_of p.id session) db.hearts was,
  find-update_count (λ r. has_hash hash r && is_visible r) (λ c. c - 1) (suc db.last_id) db.photos p
      w.ids e,
)

-- or gives one.
pub toggle_heart_on :
    (hash session : Text) (now : ℕ) (db : Db) (p : PhotoRow)
    → Wf db
    → find_visible hash db.photos ≡ some p
    → has_session db.sessions session ≡ true
    → any (heart_of p.id session) db.hearts ≡ false
    → toggle_heart no_faults hash session now db ≡ (
      ok (some (record { count = suc p.heart_count; hearted = true })),
      hearted db p.id session now,
    )
unfolding toggle_heart
toggle_heart_on hash session now db p w e known new = ground (
  arith,
  count_of_any-false (heart_of p.id session) db.hearts new,
  any-keep_self (heart_of p.id session) db.hearts,
  has_photo-find (λ r. has_hash hash r && is_visible r) db.photos p e,
  find-update_count (λ r. has_hash hash r && is_visible r) suc (suc db.last_id) db.photos p w.ids e,
)

-- The answer of a toggle on `p` and the hearts after it.
abbrev pub Flips : Db → PhotoRow → Text → Result (Option Toggled) × Db → Type 0
Flips db p session (answer, end) =
    let was = any (heart_of p.id session) db.hearts in
    (answer
      ≡ ok (
          some (record {
            count = if was then p.heart_count - 1 else suc p.heart_count;
            hearted = not was;
          })))
    × ((k : ℕ) (t : Text)
        → any (heart_of k t) end.hearts
          ≡ (if (k == p.id) && text_eq t session then not was else any (heart_of k t) db.hearts))
    × (find (λ r. r.id == p.id) end.photos
        ≡ some (record p { heart_count = if was then p.heart_count - 1 else suc p.heart_count }))

-- In a well-formed database and with no failing statement, a known session's toggle of a visible
-- photo turns that one heart over, leaves every other heart alone, moves the photo's count by one
-- the same way, and answers with the new count and state.
pub toggle_heart-Flips :
    (hash session : Text) (now : ℕ) (db : Db) (p : PhotoRow)
    → Wf db
    → find_visible hash db.photos ≡ some p
    → has_session db.sessions session ≡ true
    → Flips db p session (toggle_heart no_faults hash session now db)
unfolding find_visible
toggle_heart-Flips hash session now db p w e known =
    elim (Bool-cases (any (heart_of p.id session) db.hearts)) [
      | inl was ↦
          rw (toggle_heart_off hash session now db p w e was, was)
            (
              refl,
              (λ k t. any-keep-heart_of p.id k session t db.hearts),
              find-update_count _ (λ c. c - 1) (suc db.last_id) db.photos p w.ids e,
            )
      | inr new ↦
          rw (toggle_heart_on hash session now db p w e known new, new)
            (
              refl,
              (λ k t. ground (
                arith,
                any-keep-heart_of p.id k session t db.hearts,
                text_eq_iff session t,
                text_eq_iff t session,
              )),
              find-update_count _ suc (suc db.last_id) db.photos p w.ids e,
            )
    ]

-- Whichever statement fails, a toggle that answers with an error has changed nothing.
pub toggle_heart_atomic :
    (faults : Faults) (hash session : Text) (now : ℕ) (db : Db)
    → (toggle_heart faults hash session now db).0 ≡ err
    → (toggle_heart faults hash session now db).1 ≡ db
unfolding toggle_heart
toggle_heart_atomic faults hash session now db e = ground arith
