-- ===== src/Tests/Albums.antt =====
-- The small database as an album.
use photo_server.Base.{◌≡◌, true, List, [], ◌∷◌, map, ok}
use photo_server.Store.Schema.{Faults, no_faults}
use photo_server.Store.Photos.{photo_meta}
use photo_server.Store.Hearts.{photo_heart_state}
use photo_server.Store.Sessions.{get_session}
use photo_server.Store.Wf.History.{Operation, inserts, hides, deletes, toggles, run}
use photo_server.Store.Album.{view, perform_all}
use photo_server.Store.Album.Refining.{Thinned, view-run, view-run_faulty}
use photo_server.Store.Album.Reads.{meta_seen, hearts_seen, name_read, reads_view}
use photo_server.Tests.Data.{hash_a, hash_b, guest, photo_a, sample_db, sample_db-Wf}

abbrev party : List Operation
party = toggles hash_b guest 20 ∷ hides hash_a true 21 ∷ deletes hash_b ∷ inserts photo_a ∷ []

abbrev failing : List (Faults × Operation)
failing = (no_faults, toggles hash_b guest 20) ∷ ((λ s. true), deletes hash_a) ∷ []

view-run_example :
    view (run sample_db (map (λ op. (no_faults, op)) party)) ≡ perform_all party (view sample_db)
view-run_example = view-run sample_db party sample_db-Wf

view-run_faulty_example :
    (done : List Operation) × Thinned done (toggles hash_b guest 20 ∷ deletes hash_a ∷ [])
    × (view (run sample_db failing) ≡ perform_all done (view sample_db))
view-run_faulty_example = view-run_faulty sample_db failing sample_db-Wf

reads_view_example :
    ((photo_meta no_faults hash_a sample_db).0
      ≡ ok (meta_seen hash_a ((view sample_db).photos hash_a)))
    × ((photo_heart_state no_faults hash_a guest sample_db).0
        ≡ ok (hearts_seen ((view sample_db).loves hash_a guest) ((view sample_db).photos hash_a)))
    × (name_read (get_session no_faults guest sample_db).0 ≡ (view sample_db).names guest)
reads_view_example = reads_view hash_a guest sample_db sample_db-Wf
