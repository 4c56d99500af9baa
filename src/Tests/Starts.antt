-- ===== src/Tests/Starts.antt =====
-- A restart with the small state, and a queue that drains.
use photo_server.Base.{◌≡◌, ◌≤◌, ◌⊎◌, refl, true, false, [], ◌∷◌, bytes, arith, text_eq, has_prefix}
use photo_server.Store.Schema as Schema
use photo_server.Blobs.{path, norm_ext, valid_hash}
use photo_server.Convert.{ext_for_mime}
use photo_server.Convert.Pool.{Pool, new_pool, enqueue, Step, takes, starts, Reach, next}
use photo_server.Convert.Pool.Bounds.{enqueue-reaches}
use photo_server.Convert.Pool.Draining.{
  Work, start, more, works, weight, IsIdle, IsDown, new_pool-drains,
}
use photo_server.Program.{backfill_renditions, work_all}
use photo_server.Program.Healing.{HasRenditions, backfill_renditions-HasRenditions}
use photo_server.Tests.Data.{
  converter, hash_a, job, lower, row_a, sample_db, sample_db-Wf, sample_files, tool,
}

abbrev called : Pool
called = enqueue (new_pool 1 1) job

abbrev queued : Pool
queued = record called { started = true; alive = called.workers }

abbrev running : Pool
running = record queued { jobs = []; running = job ∷ [] }

queued-reached : Reach (new_pool 1 1) queued
unfolding enqueue new_pool
queued-reached = next (enqueue-reaches (new_pool 1 1) job) (starts refl)

one_step : Work queued 1 running
unfolding enqueue new_pool
one_step = more start (takes job [] refl (omega arith)) refl

new_pool-drains_example :
    (1 ≤ weight queued)
    × (running.cancelled ≡ queued.cancelled)
    × ((((running.cancelled ≡ false) × IsIdle running)
          ⊎ ((running.cancelled ≡ true) × IsDown running))
        ⊎ ((s : Pool) × (st : Step running s) × (works st ≡ true)))
new_pool-drains_example = new_pool-drains 1 1 1 queued running queued-reached refl one_step

backfill_renditions-HasRenditions_example :
    HasRenditions lower
      (work_all lower tool converter 7
        (backfill_renditions lower Schema.no_faults sample_db sample_files (new_pool 1 2)).jobs
        sample_files)
      hash_a
      (bytes "image/heic")
unfolding new_pool valid_hash path norm_ext text_eq ext_for_mime has_prefix
backfill_renditions-HasRenditions_example =
    backfill_renditions-HasRenditions lower tool converter 1 2 7 sample_db sample_files row_a
      (bytes "photo") (bytes "rendition") (bytes "rendition") sample_db-Wf (omega arith) refl refl
      refl refl refl refl
