-- ===== src/Store/Album.antt =====
-- internal/store as the rest of the program sees it: guests, photos and hearts by their keys, with no
-- ids, no tables and no order.
pub mod Lookup
pub mod Changes
pub mod Loves
pub mod Faulty
pub mod Exact
pub mod Reads
pub mod Refining
use photo_server.Base.{
  ℕ, suc, ◌-◌, Bool, true, false, not, ◌&&◌, ◌||◌, Option, none, some, List, [], ◌∷◌, Text, text_eq,
  is_empty, find, any, if◌then◌else◌,
}
use photo_server.Store.Schema.{SessionRow, PhotoRow, HeartRow, Db}
use photo_server.Store.Sessions.{find_session}
use photo_server.Store.Photos.{Photo, has_hash, is_visible}
use photo_server.Store.Hearts.{heart_of}
use photo_server.Store.Wf.History.{Operation, upserts, inserts, hides, deletes, toggles}

pub record Entry : Type 0 where
  pub mime : Text
  pub original_filename : Text
  pub display_name : Text
  pub hidden : Bool
  pub hearts : ℕ

-- The guests' names by their tokens, the photos by the hash of their content, and whether a guest
-- loves a photo.
pub record Album : Type 0 where
  pub names : Text → Option Text
  pub photos : Text → Option Entry
  pub loves : Text → Text → Bool

abbrev pub name_of : Option SessionRow → Option Text
name_of none = none
name_of (some s) = some s.display_name

abbrev pub to_entry : PhotoRow → Entry
to_entry r = record {
  mime = r.mime;
  original_filename = r.original_filename;
  display_name = r.display_name;
  hidden = not (is_visible r);
  hearts = r.heart_count;
}

abbrev pub entry_of : Option PhotoRow → Option Entry
entry_of none = none
entry_of (some r) = some (to_entry r)

abbrev pub loved_by : Text → List HeartRow → Option PhotoRow → Bool
loved_by session hearts none = false
loved_by session hearts (some r) = any (heart_of r.id session) hearts

abbrev pub view : Db → Album
view db = record {
  names = λ k. name_of (find_session k db.sessions);
  photos = λ k. entry_of (find (has_hash k) db.photos);
  loves = λ k session. loved_by session db.hearts (find (has_hash k) db.photos);
}

-- A map with another value at one key.
abbrev pub set {ℓ} : {A : Type ℓ} → Text → A → (Text → A) → Text → A
set key a f k = if text_eq key k then a else f k

-- A name that is not empty is the new one.
abbrev pub renamed : Text → Option Text → Text
renamed name none = name
renamed name (some old) = if is_empty name then old else name

abbrev pub is_some {ℓ} : {A : Type ℓ} → Option A → Bool
is_some none = false
is_some (some a) = true

abbrev pub new_entry : Photo → Entry
new_entry p = record {
  mime = p.mime;
  original_filename = p.original_filename;
  display_name = p.display_name;
  hidden = false;
  hearts = 0;
}

-- What is there already stays.
abbrev pub or_new : Photo → Option Entry → Entry
or_new p none = new_entry p
or_new p (some e) = e

abbrev pub hide_entry : Bool → Option Entry → Option Entry
hide_entry hidden none = none
hide_entry hidden (some e) = some (record e { hidden = hidden })

-- Only a photo that is shown can be loved, and only by a guest who is known.
abbrev pub toggle_entry : Text → Text → Album → Option Entry → Album
toggle_entry hash session a none = a
toggle_entry hash session a (some e) =
    if not e.hidden && (a.loves hash session || is_some (a.names session))
    then record a {
      photos =
          set hash
            (some
              (record e { hearts = if a.loves hash session then e.hearts - 1 else suc e.hearts }))
            a.photos;
      loves = set hash (set session (not (a.loves hash session)) (a.loves hash)) a.loves;
    }
    else a

-- What each call is for.
unfoldable pub perform : Operation → Album → Album
perform (upserts id name now) a = record a {
  names = set id (some (renamed name (a.names id))) a.names;
}
perform (inserts p) a =
    if is_empty p.uploader_session_id || is_some (a.names p.uploader_session_id)
    then record a {
      photos = set p.content_hash (some (or_new p (a.photos p.content_hash))) a.photos;
    }
    else a
perform (hides hash hidden now) a = record a {
  photos = set hash (hide_entry hidden (a.photos hash)) a.photos;
}
perform (deletes hash) a = record a {
  photos = set hash none a.photos;
  loves = set hash (λ session. false) a.loves;
}
perform (toggles hash session now) a = toggle_entry hash session a (a.photos hash)

unfoldable pub perform_all : List Operation → Album → Album
perform_all [] a = a
perform_all (op ∷ ops) a = perform_all ops (perform op a)
