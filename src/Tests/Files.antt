-- ===== src/Tests/Files.antt =====
-- Blobs, renditions and dates on the small blob store.
use photo_server.Base.{
  Option, List, Text, [], bytes, has_prefix, ok, refl, text_eq, true, ◌||◌, ◌∷◌, ◌≡◌,
}
use photo_server.Blobs.{
  exists, gallery, no_faults, norm_ext, open_blob, original, path, place, remove, put_original,
  thumb, valid_hash,
}
use photo_server.Blobs.Contents.{Addressed, put_original-Addressed}
use photo_server.Blobs.History.{Call, stores, removes, no_files, run, open-run}
use photo_server.Convert.{is_heic, work}
use photo_server.Convert.Renditions.{work_renders}
use photo_server.Convert.Pool.{enqueue, new_pool}
use photo_server.Convert.Pool.Bounds.{Inv, enqueue-reaches, new_pool-reaches-Inv}
use photo_server.Exif.Slices.{done}
use photo_server.Exif.Extract.{date_time_text}
use photo_server.Exif.Extract.Total.{date_time_text_total}
use photo_server.Tests.Data.{
  converter, digest, hash_a, hash_b, job, lower, sample_files, source, stored, tool,
}

put_original-Addressed_example :
    Addressed digest (put_original digest lower no_faults 7 source (bytes ".JPG") no_files).1
put_original-Addressed_example =
    put_original-Addressed digest lower no_faults 7 source (bytes ".JPG") no_files refl
      (λ shard name. tt)

digest-hex : (t : Text) → valid_hash (digest t) ≡ true
unfolding valid_hash
digest-hex [] = refl
digest-hex (c ∷ t) = refl

abbrev earlier : List Call
earlier =
    stores no_faults 5 source (bytes ".JPG") ∷ removes no_faults original hash_a (bytes ".jpg") ∷ []

abbrev later : List Call
later = removes no_faults original hash_b (bytes ".jpg") ∷ []

open-run_example :
    (c : Text) × (open_blob lower no_faults original stored.hash (norm_ext lower (bytes ".JPG")) (
        run digest lower later
          (put_original digest lower no_faults 7 source
            (bytes ".JPG")
            (run digest lower earlier no_files)).1)
      ≡ ok c)
    × (digest c ≡ digest source.content)
    × (stored.hash ≡ digest source.content)
unfolding put_original place path norm_ext text_eq has_prefix valid_hash remove
open-run_example =
    open-run digest lower digest-hex earlier later no_faults 7 source (bytes ".JPG") stored refl
      (refl, tt)

work_renders_example :
    let fs' =
      work lower tool converter no_faults no_faults 1 2 hash_a
        (bytes ".heic")
        (bytes "image/heic")
        sample_files in
    (exists lower thumb hash_a [] fs' ≡ true)
    × (exists lower gallery hash_a [] fs'
        ≡ (is_heic (bytes "image/heic") || exists lower gallery hash_a [] sample_files))
unfolding valid_hash path norm_ext text_eq has_prefix
work_renders_example =
    work_renders lower tool converter 1 2 hash_a (bytes ".heic") (bytes "image/heic") sample_files
      (bytes "photo") (bytes "rendition") (bytes "rendition") refl refl refl refl

new_pool-reaches-Inv_example : Inv (enqueue (new_pool 0 0) job)
new_pool-reaches-Inv_example =
    new_pool-reaches-Inv 0 0 (enqueue (new_pool 0 0) job) (enqueue-reaches (new_pool 0 0) job)

date_time_text_total_example :
    (o : Option Text) × (date_time_text (255 ∷ 216 ∷ 255 ∷ 225 ∷ 0 ∷ 4 ∷ 0 ∷ 0 ∷ 0 ∷ 0 ∷ 0 ∷ 0 ∷ [])
      ≡ done o)
date_time_text_total_example =
    date_time_text_total (255 ∷ 216 ∷ 255 ∷ 225 ∷ 0 ∷ 4 ∷ 0 ∷ 0 ∷ 0 ∷ 0 ∷ 0 ∷ 0 ∷ [])
