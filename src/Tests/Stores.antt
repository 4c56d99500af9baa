-- ===== src/Tests/Stores.antt =====
-- The store on the small database.
use photo_server.Base.{All, List, [], keep, map, ok, refl, take, text_eq, true, ◌∷◌, ◌≡◌}
use photo_server.Store.Schema.{PhotoRow, empty_db, no_faults}
use photo_server.Store.Photos.{find_visible, set_hidden}
use photo_server.Store.Hearts.{toggle_heart}
use photo_server.Store.Wf.{Wf}
use photo_server.Store.Wf.History.{hides, inserts, run, run-empty_db-Wf, toggles, upserts}
use photo_server.Store.Hearts.Toggling.{Flips, toggle_heart-Flips}
use photo_server.Store.Feeds.{gallery_photos, session_photos, to_item, top_photos}
use photo_server.Store.Feeds.Order.{IsRanked, shown_and_hearted, top_photos_lem}
use photo_server.Store.Photos.Moderation.{Lacks, feeds_lack_hidden, listed}
use mathlib.Core.List.{Perm}
use photo_server.Store.Migrations.{migrate}
use photo_server.Store.Migrations.Resuming.{none_fails, migrate_resumes}
use photo_server.Tests.Data.{
  scripts, second_fails, fresh_schema, guest, hash_a, photo_a, row_a, sample_db, sample_db-Wf,
}

run-empty_db-Wf_example : Wf (
    run empty_db (
      (no_faults, upserts guest [] 1)
      ∷ (no_faults, inserts photo_a)
      ∷ (no_faults, toggles hash_a guest 3)
      ∷ ((λ _. true), hides hash_a true 9)
      ∷ []))
run-empty_db-Wf_example = run-empty_db-Wf (
    (no_faults, upserts guest [] 1)
    ∷ (no_faults, inserts photo_a)
    ∷ (no_faults, toggles hash_a guest 3)
    ∷ ((λ _. true), hides hash_a true 9)
    ∷ [])

toggle_heart-Flips_example :
    Flips sample_db row_a guest (toggle_heart no_faults hash_a guest 20 sample_db)
unfolding text_eq find_visible
toggle_heart-Flips_example =
    toggle_heart-Flips hash_a guest 20 sample_db row_a sample_db-Wf refl refl

feeds_lack_hidden_example :
    All (Lacks hash_a) (
      listed
        (gallery_photos no_faults guest 0 30 (set_hidden no_faults hash_a true 20 sample_db).1))
    × All (Lacks hash_a) (
        listed
          (session_photos no_faults guest 30 (set_hidden no_faults hash_a true 20 sample_db).1))
    × All
        (Lacks hash_a)
        (listed (top_photos no_faults guest 30 (set_hidden no_faults hash_a true 20 sample_db).1))
feeds_lack_hidden_example = feeds_lack_hidden hash_a 20 sample_db guest 0 30

top_photos_lem_example :
    (ranking : List PhotoRow) × IsRanked ranking
    × Perm ranking (keep shown_and_hearted sample_db.photos)
    × (top_photos no_faults guest 60 sample_db
        ≡ (ok (map (to_item sample_db.hearts guest) (take 60 ranking)), sample_db))
top_photos_lem_example = top_photos_lem guest 60 sample_db

migrate_resumes_example :
    migrate none_fails scripts (migrate second_fails scripts fresh_schema).1
    ≡ migrate none_fails scripts fresh_schema
migrate_resumes_example = migrate_resumes second_fails scripts fresh_schema
