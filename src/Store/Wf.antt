-- ===== src/Store/Wf.antt =====
-- The invariant of the database: what the keys, the foreign keys and the code that keeps
-- `heart_count` together promise of the tables.
pub mod Rows
pub mod Hearts
pub mod Toggle
pub mod Steps
pub mod History
pub mod Evolution
pub mod Content
use photo_server.Base.{
  ℕ, suc, ◌<◌, ◌≡◌, Bool, true, false, List, [], ◌∷◌, All, any, count, text_eq, Text, ◌==◌,
}
use photo_server.Store.Schema.{SessionRow, PhotoRow, HeartRow, Db}
use photo_server.Store.Photos.{has_hash, references}
use photo_server.Store.Hearts.{heart_of}

-- The ids fall along the list, from under the bound to above 0.
abbrev pub Below : ℕ → List PhotoRow → Type 0
Below n [] = 0 < n
Below n (r ∷ rs) = (r.id < n) × Below r.id rs

abbrev pub UniqueHashes : List PhotoRow → Type 0
UniqueHashes [] = Unit {0}
UniqueHashes (r ∷ rs) = (any (has_hash r.content_hash) rs ≡ false) × UniqueHashes rs

abbrev pub UniqueHearts : List HeartRow → Type 0
UniqueHearts [] = Unit {0}
UniqueHearts (h ∷ hs) = (any (heart_of h.photo_id h.session_id) hs ≡ false) × UniqueHearts hs

abbrev pub UniqueSessions : List SessionRow → Type 0
UniqueSessions [] = Unit {0}
UniqueSessions (s ∷ ss) = (any (λ t. text_eq t.id s.id) ss ≡ false) × UniqueSessions ss

abbrev pub on_photo : ℕ → HeartRow → Bool
on_photo id h = h.photo_id == id

abbrev pub has_photo : List PhotoRow → ℕ → Bool
has_photo rows id = any (λ r. r.id == id) rows

abbrev pub has_session : List SessionRow → Text → Bool
has_session rows id = any (λ s. text_eq s.id id) rows

pub record Wf (db : Db) : Type 0 where
  -- Every id is below the next one, and no two photos share one.
  pub ids : Below (suc db.last_id) db.photos
  pub hashes : UniqueHashes db.photos
  pub sessions : UniqueSessions db.sessions
  -- One heart for each photo and session.
  pub pairs : UniqueHearts db.hearts
  -- The denormalised count is the number of hearts.
  pub counted : All (λ r. r.heart_count ≡ count (on_photo r.id) db.hearts) db.photos
  pub heart_photos : All (λ h. has_photo db.photos h.photo_id ≡ true) db.hearts
  pub heart_sessions : All (λ h. has_session db.sessions h.session_id ≡ true) db.hearts
  pub uploaders : All (λ r. references db.sessions r.uploader_session_id ≡ true) db.photos
