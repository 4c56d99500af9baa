-- ===== src/Blobs/History.antt =====
-- The blob store over a sequence of calls from its first, empty directory.
use photo_server.Base.{
  ℕ, ◌≡◌, ◌⊎◌, inl, inr, refl, sym, ◌∙◌, subst, true, false, none, List, [], ◌∷◌, ◌++◌, All, Text,
  text_eq, length, take, ok, arith,
}
use photo_server.Blobs.{
  Kind, original, kind_eq, FilePath, blob, Files, has_file, norm_ext, path, valid_hash, Faults,
  no_faults, Source, Stored, put_original, put, open_blob, remove,
}
use photo_server.Blobs.Contents.{
  Addressed, Agrees, put_original-Addressed, put_original_ok, has_file-some, take-append_of,
}
use photo_server.Blobs.Keeping.{put_original-KeepsOriginals, remove-keeps}

-- The calls that change files: an upload's, a rendition's, of another kind than the originals', and a
-- removal.
pub data Call : Type 0 where
  stores : Faults → ℕ → Source → Text → Call
  puts : Faults → ℕ → (k : Kind) → kind_eq k original ≡ false → Text → Text → Source → Call
  removes : Faults → Kind → Text → Text → Call

abbrev pub no_files : Files
no_files p = none

-- The call is no removal of the hash.
abbrev pub Spares : Text → Call → Type 0
Spares hash (stores faults id source ext) = Unit {0}
Spares hash (puts faults id k other h ext source) = Unit {0}
Spares hash (removes faults k h ext) = text_eq h hash ≡ false

put_same :
    (to_lower : Text → Text) (faults : Faults) (id : ℕ) (k : Kind) (hash ext : Text)
    (source : Source) (fs : Files) (shard name : Text)
    → kind_eq k original ≡ false
    → (put to_lower faults id k hash ext source fs).1 (blob original shard name)
      ≡ fs (blob original shard name)
unfolding put path
put_same to_lower faults id k hash ext source fs shard name other = ground arith

remove_same :
    (to_lower : Text → Text) (faults : Faults) (k : Kind) (hash ext : Text) (fs : Files)
    (q : FilePath)
    → ((remove to_lower faults k hash ext fs).1 q ≡ fs q)
      ⊎ ((remove to_lower faults k hash ext fs).1 q ≡ none)
unfolding remove
remove_same to_lower faults k hash ext fs q = ground arith

sixty_four : (hash : Text) → valid_hash hash ≡ true → length hash ≡ 64
unfolding valid_hash
sixty_four hash v = ground arith

module _ (digest to_lower : Text → Text) where
  abbrev pub called : Call → Files → Files
  called (stores faults id source ext) fs = (put_original digest to_lower faults id source ext fs).1
  called (puts faults id k other hash ext source) fs =
      (put to_lower faults id k hash ext source fs).1
  called (removes faults k hash ext) fs = (remove to_lower faults k hash ext fs).1

  abbrev pub run : List Call → Files → Files
  run [] fs = fs
  run (c ∷ cs) fs = run cs (called c fs)

  called-keeps :
      (c : Call) (hash ext : Text) (fs : Files)
      → valid_hash hash ≡ true
      → Spares hash c
      → has_file (path to_lower original hash ext) fs ≡ true
      → has_file (path to_lower original hash ext) (called c fs) ≡ true
  unfolding path
  called-keeps (stores faults id source e) hash ext fs v s h =
      put_original-KeepsOriginals digest to_lower faults id source e fs _ _ h
  called-keeps (puts faults id k other g e source) hash ext fs v s h =
      rw
        (put_same to_lower faults id k g e source fs (take 2 hash) (hash ++ norm_ext to_lower ext)
          other)
        h
  called-keeps (removes faults k g e) hash ext fs v s h =
      remove-keeps to_lower faults k g e hash ext fs s v h

  run-keeps :
      (cs : List Call) (hash ext : Text) (fs : Files)
      → valid_hash hash ≡ true
      → All (Spares hash) cs
      → has_file (path to_lower original hash ext) fs ≡ true
      → has_file (path to_lower original hash ext) (run cs fs) ≡ true
  run-keeps [] hash ext fs v s h = h
  run-keeps (c ∷ cs) hash ext fs v s h =
      run-keeps cs hash ext (called c fs) v s.1 (called-keeps c hash ext fs v s.0 h)

  module _ (hex : (t : Text) → valid_hash (digest t) ≡ true) where
    called-Addressed :
        (c : Call) (fs : Files) → Addressed digest fs → Addressed digest (called c fs)
    called-Addressed (stores faults id source ext) fs a shard name =
        put_original-Addressed digest to_lower faults id source ext fs
          (sixty_four (digest source.content) (hex source.content)) a shard name
    called-Addressed (puts faults id k other hash ext source) fs a shard name =
        subst (Agrees digest name)
          (sym (put_same to_lower faults id k hash ext source fs shard name other)) (a shard name)
    called-Addressed (removes faults k hash ext) fs a shard name =
        elim (remove_same to_lower faults k hash ext fs (blob original shard name)) [
          | inl same ↦ subst (Agrees digest name) (sym same) (a shard name)
          | inr gone ↦ subst (Agrees digest name) (sym gone) tt
        ]

    run-Addressed :
        (cs : List Call) (fs : Files) → Addressed digest fs → Addressed digest (run cs fs)
    run-Addressed [] fs a = a
    run-Addressed (c ∷ cs) fs a = run-Addressed cs (called c fs) (called-Addressed c fs a)

    opens :
        (hash ext : Text) (fs : Files)
        → valid_hash hash ≡ true
        → Addressed digest fs
        → has_file (path to_lower original hash ext) fs ≡ true
        → (c : Text) × (open_blob to_lower no_faults original hash ext fs ≡ ok c)
          × (digest c ≡ hash)
    unfolding open_blob path
    opens hash ext fs v a h =
        let (c, found) = has_file-some digest to_lower (path to_lower original hash ext) fs h in
        let kept = a (take 2 hash) (hash ++ norm_ext to_lower ext) in
        (
          c,
          rw (v, found) refl,
          sym (rw found at kept) ∙ take-append_of 64 hash _ (sixty_four hash v),
        )

    -- Let every digest be 64 hex digits. Start with no files, and store uploads, write renditions and
    -- remove blobs, whatever fails: when an upload is then stored with no error, and later calls of
    -- these kinds, whatever fails in them, do not remove its hash, it can be opened under the answered
    -- hash with the extension it came with; what is read has the digest of what was sent, which is the
    -- answered hash.
    pub open-run :
        (before later : List Call) (faults : Faults) (id : ℕ) (source : Source) (ext : Text)
        (s : Stored)
        → (put_original digest to_lower faults id source ext (run before no_files)).0 ≡ ok s
        → All (Spares s.hash) later
        → (c : Text) × (open_blob to_lower no_faults original s.hash (norm_ext to_lower ext) (
              run later (put_original digest to_lower faults id source ext (run before no_files)).1)
            ≡ ok c)
          × (digest c ≡ digest source.content)
          × (s.hash ≡ digest source.content)
    open-run before later faults id source ext s e spared =
        let fs = run before no_files in
        let after = called (stores faults id source ext) fs in
        let (same, _, there) = put_original_ok digest to_lower faults id source ext fs s e in
        let addressed = run-Addressed later after (
          called-Addressed (stores faults id source ext) fs
            (run-Addressed before no_files (λ shard name. tt))) in
        let (c, found, named) =
          opens s.hash (norm_ext to_lower ext) (run later after) (rw same (hex source.content))
            addressed
            (run-keeps later s.hash (norm_ext to_lower ext) after (rw same (hex source.content))
              spared (rw same there)) in
        (c, found, named ∙ same, same)
