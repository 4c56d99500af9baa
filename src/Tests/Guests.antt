-- ===== src/Tests/Guests.antt =====
-- The guest's side on the small database.
use photo_server.Base.{
  Text, [], any, arith, atoi, bytes, false, has_prefix, if◌then◌else◌, is_empty, keep, map, none,
  not, ok, positive, refl, some, suc, text_eq, true, ℕ, ◌&&◌, ◌-◌, ◌<◌, ◌==◌, ◌↔◌, ◌≡◌, ◌≤◌, ◌⊎◌,
}
use photo_server.Store.Schema.{SessionRow, no_faults}
use photo_server.Store.Photos.{find_visible, is_visible}
use photo_server.Store.Feeds.{to_item}
use photo_server.Store.Wf.{Wf}
use photo_server.Server.Api.{clamp_limit}
use photo_server.Server.Api.Scroll.{scroll, scroll_complete}
use Prim.Native.Nat.{min}
use photo_server.Server.Api.Limits.{clamp_limit_bounds}
use photo_server.Session.{Cookie, adopt, ensure, set_display_name}
use photo_server.Server.Gate.{
  access_cookie, del, entered, gate, get, is_exempt, key_name, require_access, through,
}
use photo_server.Server.Gate.Entry.{Presents, behind_gate, entered_lem, through_iff}
use photo_server.Store.Hearts.{heart_of}
use photo_server.Session.Continuity.{adopt_recovers, resolved}
use photo_server.Server.Http.{is_hex_sha256}
use photo_server.Server.Guests.{handle_heart, heart_answer}
use photo_server.Server.Guests.Hearting.{handle_heart_flips}
use photo_server.Session.Tokens.{decodes, new_token, valid_token}
use photo_server.Session.Tokens.Random.{valid_token-new_token}
use photo_server.Tests.Data.{
  access, guest, heart_request, known_visit, manager, mark, no_query, row_a, sample_db,
  sample_db-Wf, twos, twos-bytes, visit,
}

scroll_complete_example :
    scroll 3 guest 0 1 sample_db
    ≡ map (to_item sample_db.hearts guest) (keep is_visible sample_db.photos)
scroll_complete_example =
    scroll_complete guest 1 3 sample_db sample_db-Wf (omega arith) (omega arith)

clamp_limit_bounds_example :
    (0 < clamp_limit (bytes "500") 30 100)
    × (clamp_limit (bytes "500") 30 100 ≤ 100)
    × (((positive (atoi (bytes "500")) ≡ none) × (clamp_limit (bytes "500") 30 100 ≡ 30))
        ⊎ ((n : ℕ) × (positive (atoi (bytes "500")) ≡ some n)
            × (clamp_limit (bytes "500") 30 100 ≡ min n 100)))
clamp_limit_bounds_example = clamp_limit_bounds (bytes "500") 30 100 (omega arith) (omega arith)

through_iff_example : (require_access mark access visit ≡ through) ↔ (
    (is_empty access.password ≡ true)
    ⊎ (is_exempt visit.path ≡ true)
    ⊎ (visit.cookie ≡ some (mark access.password)))
through_iff_example = through_iff mark access visit

entered_lem_example :
    (Presents mark access) visit
    × ((access_cookie mark access) ≡ access_cookie mark access)
    × (require_access mark access known_visit ≡ through)
    × (any (λ e. text_eq e.0 key_name) no_query ≡ false)
unfolding require_access is_exempt text_eq has_prefix
entered_lem_example =
    entered_lem mark access visit known_visit (access_cookie mark access) (bytes "/gallery")
      no_query refl refl

behind_gate_example :
    ((Presents mark access) visit
      × (require_access mark access visit ≡ (
          if text_eq (get key_name visit.query) access.password
          then entered (access_cookie mark access) visit.path (del key_name visit.query)
          else entered (access_cookie mark access) (bytes "/") [])))
    ⊎ ((¬ (Presents mark access) visit)
        × ((require_access mark access visit ≡ gate 401 true)
            ⊎ (require_access mark access visit ≡ gate 200 false)))
unfolding is_exempt text_eq has_prefix
behind_gate_example = behind_gate mark access visit refl refl (λ e. cc)

handle_heart_flips_example :
    let session = resolved heart_request.cookie (bytes "new") in
    let was = any (heart_of row_a.id session) sample_db.hearts in
    let after = handle_heart no_faults (some manager) (bytes "new") 20 heart_request sample_db in
    (after.0
      ≡ heart_answer heart_request (record {
        count = if was then row_a.heart_count - 1 else suc row_a.heart_count;
        hearted = not was;
      }))
    × ((k : ℕ) (t : Text)
        → any (heart_of k t) after.2.hearts ≡ (
            if (k == row_a.id) && text_eq t session
            then not was
            else any (heart_of k t) sample_db.hearts))
    × Wf after.2
unfolding is_hex_sha256 find_visible text_eq
handle_heart_flips_example =
    handle_heart_flips manager (bytes "new") 20 heart_request sample_db row_a sample_db-Wf refl refl

adopt_recovers_example :
    let adopted =
      adopt no_faults manager guest
        (bytes "new")
        21
        (set_display_name no_faults guest (bytes "Ben") 20 sample_db).1 in
    (c : Cookie) × (s t : SessionRow) × (adopted.0.cookie ≡ some c)
    × (c.value ≡ guest)
    × (adopted.0.session ≡ ok s)
    × (s.id ≡ guest)
    × (s.display_name ≡ bytes "Ben")
    × ((ensure no_faults manager (some c.value) (bytes "other") 22 adopted.1).0.session ≡ ok t)
    × (t.id ≡ guest)
    × (t.display_name ≡ bytes "Ben")
unfolding valid_token decodes
adopt_recovers_example =
    adopt_recovers manager guest (bytes "Ben") (bytes "new") (bytes "other") 20 21 22 sample_db refl
      refl refl

valid_token-new_token_example : valid_token (new_token twos) ≡ true
valid_token-new_token_example = valid_token-new_token twos refl twos-bytes
