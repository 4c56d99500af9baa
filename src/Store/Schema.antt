-- ===== src/Store/Schema.antt =====
-- internal/store/migrations: the tables, and the way the methods of `Store` run SQL statements.
-- A statement can fail for a reason outside the program, such as a full disk: `Faults` says which
-- statements of a call do. A statement that fails changes no table.
use photo_server.Base.{
  ℕ, Bool, false, Option, none, some, List, [], Text, Result, ok, err, Call, if◌then◌else◌,
}

pub record SessionRow : Type 0 where
  pub id : Text
  pub display_name : Text
  pub created_at : ℕ
  pub last_seen_at : ℕ

pub record PhotoRow : Type 0 where
  pub id : ℕ
  pub content_hash : Text
  pub mime : Text
  pub original_filename : Text
  pub uploader_session_id : Option Text
  pub display_name : Text
  pub taken_at : Option ℕ
  pub uploaded_at : ℕ
  pub width : ℕ
  pub height : ℕ
  pub hidden_at : Option ℕ
  pub heart_count : ℕ

pub record HeartRow : Type 0 where
  pub photo_id : ℕ
  pub session_id : Text
  pub created_at : ℕ

-- A new photo stands before the older ones; `last_id` is the AUTOINCREMENT sequence.
pub record Db : Type 0 where
  pub sessions : List SessionRow
  pub photos : List PhotoRow
  pub hearts : List HeartRow
  pub last_id : ℕ

abbrev pub empty_db : Db
empty_db = record { sessions = []; photos = []; hearts = []; last_id = 0 }

-- The SQL statements that the methods run, one name for each place.
pub data Statement : Type 0 where
  session_upsert session_select : Statement
  photo_insert photo_select_id photo_update_hidden photo_select_mime photo_delete : Statement
  photo_meta_select photo_hash_select photo_taken_select photo_all_select : Statement
  heart_begin heart_select_photo heart_delete heart_decrement heart_insert : Statement
  heart_increment heart_select_count heart_commit : Statement
  heart_state_select loved_select : Statement
  feed_select admin_select counts_select : Statement

abbrev pub Faults : Type 0
Faults = Statement → Bool

abbrev pub no_faults : Faults
no_faults s = false

abbrev pub then_run : {A B : Type 0} → Result A × Db → (A → Call Db B) → Result B × Db
then_run (ok a, db) f = f a db
then_run (err, db) f = (err, db)

infixl 5 ◌>>=◌
abbrev pub ◌>>=◌ : {A B : Type 0} → Call Db A → (A → Call Db B) → Call Db B
◌>>=◌ m f db = then_run (m db) f

abbrev pub return : {A : Type 0} → A → Call Db A
return a db = (ok a, db)

abbrev pub fail : {A : Type 0} → Call Db A
fail db = (err, db)

-- A statement that reads.
abbrev pub query : {A : Type 0} → Bool → (Db → A) → Call Db A
query faulty f db = if faulty then (err, db) else (ok (f db), db)

abbrev pub written : {A : Type 0} → Db → Option (A × Db) → Result A × Db
written db none = (err, db)
written db (some (a, db')) = (ok a, db')

-- A statement that writes; `none` is a violated constraint.
abbrev pub exec : {A : Type 0} → Bool → (Db → Option (A × Db)) → Call Db A
exec faulty f db = if faulty then (err, db) else written db (f db)

abbrev pub settled : {A : Type 0} → Db → Result A × Db → Result A × Db
settled db (ok a, db') = (ok a, db')
settled db (err, db') = (err, db)

-- `Begin` and the deferred `Rollback`: what a body that ends in an error wrote is undone.
abbrev pub transaction : {A : Type 0} → Call Db A → Call Db A
transaction body db = settled db (body db)
