-- ===== src/Store/Sessions.antt =====
-- internal/store/sessions.go
pub mod Names
use photo_server.Base.{
  ℕ, Option, some, List, [], ◌∷◌, Text, text_eq, is_empty, find, Call, if◌then◌else◌,
}
use photo_server.Store.Schema.{SessionRow, Db, Faults, session_upsert, session_select, exec, query}

-- INSERT ... ON CONFLICT(id) DO UPDATE.
unfoldable pub upsert_row : Text → Text → ℕ → List SessionRow → List SessionRow
upsert_row id name now [] =
    record { id = id; display_name = name; created_at = now; last_seen_at = now } ∷ []
upsert_row id name now (s ∷ rows) =
    if text_eq s.id id
    then record s {
      display_name = if is_empty name then s.display_name else name;
      last_seen_at = now;
    }
      ∷ rows
    else s ∷ upsert_row id name now rows

unfoldable pub upsert_session : Faults → Text → Text → ℕ → Call Db (Unit {0})
unfolding upsert_row
upsert_session faults id name now =
    exec (faults session_upsert)
      λ db. some (tt, record db { sessions = upsert_row id name now db.sessions })

unfoldable pub find_session : Text → List SessionRow → Option SessionRow
find_session id = find λ s. text_eq s.id id

-- `none` is the result `ok = false`.
unfoldable pub get_session : Faults → Text → Call Db (Option SessionRow)
unfolding find_session
get_session faults id = query (faults session_select) λ db. find_session id db.sessions
