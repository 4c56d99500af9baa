-- ===== src/Store/Sessions/Names.antt =====
-- What a session's row says after an upsert: the display name is set once and remembered.
use photo_server.Base.{
  ℕ, ◌≡◌, refl, Option, none, some, List, [], ◌∷◌, Text, text_eq, text_eq_iff, is_empty,
  if◌then◌else◌, arith, ok,
}
use photo_server.Store.Schema.{SessionRow, Db, no_faults, ◌>>=◌}
use photo_server.Store.Sessions.{upsert_row, upsert_session, find_session, get_session}

-- The row that an upsert leaves for its id.
abbrev pub upserted : Text → Text → ℕ → Option SessionRow → SessionRow
upserted id name now none = record {
  id = id;
  display_name = name;
  created_at = now;
  last_seen_at = now;
}
upserted id name now (some s) = record s {
  display_name = if is_empty name then s.display_name else name;
  last_seen_at = now;
}

pub find_session-upsert_row :
    (id name : Text) (now : ℕ) (rows : List SessionRow) (k : Text)
    → find_session k (upsert_row id name now rows) ≡ (
        if text_eq id k
        then some (upserted id name now (find_session id rows))
        else find_session k rows)
unfolding find_session upsert_row
find_session-upsert_row id name now [] k = refl
find_session-upsert_row id name now (s ∷ rows) k = ground (
  arith,
  text_eq_iff s.id id,
  text_eq_iff id k,
  text_eq_iff s.id k,
  find_session-upsert_row id name now rows k,
)

-- After an upsert with no failing statement, the session reads back with the new name if one was
-- given and else with the old one, its creation time is kept if it was there, and every other
-- session reads back as before.
pub get_session-upsert_session :
    (id name : Text) (now : ℕ) (db : Db) (k : Text)
    → (upsert_session no_faults id name now >>= λ _. get_session no_faults k) db ≡ (
      ok (
          if text_eq id k
          then some (upserted id name now (find_session id db.sessions))
          else find_session k db.sessions),
      record db { sessions = upsert_row id name now db.sessions },
    )
unfolding upsert_session get_session
get_session-upsert_session id name now db k = cc (find_session-upsert_row id name now db.sessions k)
