-- ===== src/Convert/Renditions.antt =====
-- What a job leaves in the blob store.
use photo_server.Base.{
  ℕ, ◌≡◌, inl, inr, refl, ◌∙◌, true, false, ◌||◌, some, [], ◌++◌, take, Text, bytes, text_eq_refl,
  ok, arith, Bool-cases,
}
use photo_server.Blobs.{
  ext_for, has_file, Kind, original, thumb, gallery, blob, kind_eq, norm_ext, Files, Faults,
  no_faults, path, exists, put, valid_hash,
}
use photo_server.Convert.{Tool, Converter, render, gallery_jpeg, thumbnail, work, is_heic}

module _ (to_lower : Text → Text) (tool : Tool) where
  -- Rendering touches one kind of blob only, whatever fails.
  render_else :
      (faults : Faults) (id : ℕ) (k j : Kind) (hash src_ext : Text) (px q : ℕ) (fs : Files)
      (shard name : Text)
      → kind_eq k j ≡ false
      → (render to_lower tool faults id k hash src_ext px q fs).1 (blob j shard name)
        ≡ fs (blob j shard name)
  unfolding render exists put path
  render_else faults id original j hash src_ext px q fs shard name h = ground arith
  render_else faults id thumb j hash src_ext px q fs shard name h = ground arith
  render_else faults id gallery j hash src_ext px q fs shard name h = ground arith

  -- A job reads originals and writes none, whatever fails on the way.
  pub work-original :
      (c : Converter) (faults more : Faults) (id id' : ℕ) (hash ext mime : Text) (fs : Files)
      (shard name : Text)
      → work to_lower tool c faults more id id' hash ext mime fs (blob original shard name)
        ≡ fs (blob original shard name)
  unfolding work gallery_jpeg thumbnail
  work-original c faults more id id' hash ext mime fs shard name =
      let by_thumb =
        render_else faults id thumb original hash ext c.thumb_px c.thumb_q fs shard name refl in
      elim (Bool-cases (is_heic mime)) [
        | inl e ↦ rw e (
            render_else more id' gallery original hash ext c.gallery_px c.gallery_q _ shard name
              refl
            ∙ by_thumb)
        | inr e ↦ rw e by_thumb
      ]

  render-exists :
      (k : Kind) (id : ℕ) (hash src_ext : Text) (px q : ℕ) (fs : Files) (source rendition : Text)
      → kind_eq k original ≡ false
      → valid_hash hash ≡ true
      → fs (path to_lower original hash src_ext) ≡ some source
      → tool source k px q ≡ ok rendition
      → exists to_lower k hash [] (render to_lower tool no_faults id k hash src_ext px q fs).1
        ≡ true
  unfolding render exists put path
  render-exists original id hash src_ext px q fs source rendition h v e t = absurd (ground arith)
  render-exists thumb id hash src_ext px q fs source rendition h v e t =
      ground (arith, text_eq_refl (take 2 hash), text_eq_refl (hash ++ bytes ".webp"))
  render-exists gallery id hash src_ext px q fs source rendition h v e t =
      ground (arith, text_eq_refl (take 2 hash), text_eq_refl (hash ++ bytes ".jpg"))

  exists-same :
      (k : Kind) (hash : Text) (fs gs : Files)
      → fs (path to_lower k hash []) ≡ gs (path to_lower k hash [])
      → exists to_lower k hash [] fs ≡ exists to_lower k hash [] gs
  unfolding exists
  exists-same k hash fs gs e = rw e refl

  -- Rendering takes no blob away, whatever fails.
  pub render-keeps :
      (faults : Faults) (id : ℕ) (k j : Kind) (hash src_ext : Text) (px q : ℕ) (fs : Files)
      (shard name : Text)
      → has_file (blob j shard name) fs ≡ true
      → has_file (blob j shard name) (render to_lower tool faults id k hash src_ext px q fs).1
        ≡ true
  unfolding render exists put path
  render-keeps faults id original j hash src_ext px q fs shard name h = ground arith
  render-keeps faults id thumb j hash src_ext px q fs shard name h = ground arith
  render-keeps faults id gallery j hash src_ext px q fs shard name h = ground arith

  pub work-keeps :
      (c : Converter) (faults more : Faults) (id id' : ℕ) (hash ext mime : Text) (fs : Files)
      (j : Kind) (shard name : Text)
      → has_file (blob j shard name) fs ≡ true
      → has_file (blob j shard name) (work to_lower tool c faults more id id' hash ext mime fs)
        ≡ true
  unfolding work gallery_jpeg thumbnail
  work-keeps c faults more id id' hash ext mime fs j shard name h =
      let first = render-keeps faults id thumb j hash ext c.thumb_px c.thumb_q fs shard name h in
      elim (Bool-cases (is_heic mime)) [
        | inl e ↦
            rw e
              (render-keeps more id' gallery j hash ext c.gallery_px c.gallery_q _ shard name first)
        | inr e ↦ rw e first
      ]

  -- What is there stays there.
  pub exists-work :
      (c : Converter) (faults more : Faults) (id id' : ℕ) (hash ext mime : Text) (fs : Files)
      (k : Kind) (h : Text)
      → exists to_lower k h [] fs ≡ true
      → exists to_lower k h [] (work to_lower tool c faults more id id' hash ext mime fs) ≡ true
  unfolding exists path
  exists-work c faults more id id' hash ext mime fs k h e = ground (
    arith,
    work-keeps c faults more id id' hash ext mime fs k (take 2 h) (h ++ ext_for to_lower k []),
  )

  -- A job for a filed original that the tool can convert, with no failing call of the file system,
  -- leaves a thumbnail, whatever the type, and a gallery rendition exactly if the original is HEIC or
  -- HEIF or there was one before.
  pub work_renders :
      (c : Converter) (id id' : ℕ) (hash ext mime : Text) (fs : Files) (source small large : Text)
      → valid_hash hash ≡ true
      → fs (path to_lower original hash ext) ≡ some source
      → tool source thumb c.thumb_px c.thumb_q ≡ ok small
      → tool source gallery c.gallery_px c.gallery_q ≡ ok large
      → let fs' = work to_lower tool c no_faults no_faults id id' hash ext mime fs in
        (exists to_lower thumb hash [] fs' ≡ true)
        × (exists to_lower gallery hash [] fs'
            ≡ (is_heic mime || exists to_lower gallery hash [] fs))
  unfolding work gallery_jpeg thumbnail path
  work_renders c id id' hash ext mime fs source small large v e t g =
      let one = (render to_lower tool no_faults id thumb hash ext c.thumb_px c.thumb_q fs).1 in
      let small_there =
        render-exists thumb id hash ext c.thumb_px c.thumb_q fs source small refl v e t in
      let still =
        render_else no_faults id thumb original hash ext c.thumb_px c.thumb_q fs (take 2 hash)
          (hash ++ norm_ext to_lower ext) refl in
      let same_gallery = exists-same gallery hash one fs (
        render_else no_faults id thumb gallery hash ext c.thumb_px c.thumb_q fs (take 2 hash)
          (hash ++ bytes ".jpg") refl) in
      elim (Bool-cases (is_heic mime)) [
        | inl h ↦ rw h (
          exists-same thumb hash
                (render to_lower tool no_faults id' gallery hash ext c.gallery_px c.gallery_q one).1
                one
                (render_else no_faults id' gallery thumb hash ext c.gallery_px c.gallery_q one
                  (take 2 hash) (hash ++ bytes ".webp") refl)
              ∙ small_there,
          render-exists gallery id' hash ext c.gallery_px c.gallery_q one source large refl v
              (still ∙ e) g,
        )
        | inr h ↦ rw h (small_there, same_gallery)
      ]
