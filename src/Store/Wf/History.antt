-- ===== src/Store/Wf/History.antt =====
-- Every database that the operations build from the empty one satisfies the invariant.
use photo_server.Base.{arith, ℕ, Bool, List, [], ◌∷◌, Text}
use photo_server.Store.Schema.{Db, Faults, empty_db}
use photo_server.Store.Sessions.{upsert_session}
use photo_server.Store.Photos.{Photo, insert_photo, set_hidden, delete_photo}
use photo_server.Store.Hearts.{toggle_heart}
use photo_server.Store.Wf.{Wf}
use photo_server.Store.Wf.Toggle.{toggle_heart-Wf}
use photo_server.Store.Wf.Steps.{upsert_session-Wf, insert_photo-Wf, set_hidden-Wf, delete_photo-Wf}

-- The calls that write, each with the time at which it runs.
pub data Operation : Type 0 where
  upserts : Text → Text → ℕ → Operation
  inserts : Photo → Operation
  hides : Text → Bool → ℕ → Operation
  deletes : Text → Operation
  toggles : Text → Text → ℕ → Operation

unfoldable pub step : Db → Faults × Operation → Db
step db (faults, upserts id name now) = (upsert_session faults id name now db).1
step db (faults, inserts p) = (insert_photo faults p db).1
step db (faults, hides hash hidden now) = (set_hidden faults hash hidden now db).1
step db (faults, deletes hash) = (delete_photo faults hash db).1
step db (faults, toggles hash session now) = (toggle_heart faults hash session now db).1

unfoldable pub run : Db → List (Faults × Operation) → Db
unfolding step
run db [] = db
run db (c ∷ cs) = run (step db c) cs

pub step-Wf : (db : Db) (c : Faults × Operation) → Wf db → Wf (step db c)
unfolding step
step-Wf db (faults, upserts id name now) w = upsert_session-Wf faults id name now db w
step-Wf db (faults, inserts p) w = insert_photo-Wf faults p db w
step-Wf db (faults, hides hash hidden now) w = set_hidden-Wf faults hash hidden now db w
step-Wf db (faults, deletes hash) w = delete_photo-Wf faults hash db w
step-Wf db (faults, toggles hash session now) w = toggle_heart-Wf faults hash session now db w

pub run-Wf : (db : Db) (cs : List (Faults × Operation)) → Wf db → Wf (run db cs)
unfolding run
run-Wf db [] w = w
run-Wf db (c ∷ cs) w = run-Wf (step db c) cs (step-Wf db c w)

-- Whatever calls are made and whichever statements fail, the tables that grow from the empty
-- database keep unique ids, hashes, sessions and hearts, references that point to rows, and a
-- `heart_count` that is the number of the photo's hearts.
pub run-empty_db-Wf : (cs : List (Faults × Operation)) → Wf (run empty_db cs)
run-empty_db-Wf cs = run-Wf empty_db cs record {
  ids = omega arith;
  hashes = tt;
  sessions = tt;
  pairs = tt;
  counted = tt;
  heart_photos = tt;
  heart_sessions = tt;
  uploaders = tt;
}
