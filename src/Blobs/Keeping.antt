-- ===== src/Blobs/Keeping.antt =====
-- Which originals the operations leave in place.
use photo_server.Base.{
  ℕ, ◌≡◌, refl, ap, ◌∙◌, sym, inl, inr, true, false, Bool-cases, Text, text_eq, text_eq_iff, take,
  arith,
}
use photo_server.Blobs.{
  Kind, original, thumb, gallery, FilePath, blob, path_eq, Files, has_file, path, valid_hash,
  Faults, Source, put_original, remove,
}
use photo_server.Blobs.Contents.{path_eq-eq, take-append_of, put_original_atomic}

-- No original goes.
abbrev pub KeepsOriginals : Files → Files → Type 0
KeepsOriginals fs gs =
    (shard name : Text)
    → has_file (blob original shard name) fs ≡ true
    → has_file (blob original shard name) gs ≡ true

pub put_original-KeepsOriginals :
    (digest to_lower : Text → Text) (faults : Faults) (id : ℕ) (source : Source) (ext : Text)
    (fs : Files)
    → KeepsOriginals fs (put_original digest to_lower faults id source ext fs).1
put_original-KeepsOriginals digest to_lower faults id source ext fs shard name h =
    elim (put_original_atomic digest to_lower faults id source ext fs original shard name) [
      | inl same ↦ rw same h
      | inr (here, fresh, new) ↦ rw new refl
    ]

-- A removal leaves the originals of every other hash.
same_hash_of :
    (to_lower : Text → Text) (hash other ext ext' : Text)
    → valid_hash hash ≡ true
    → valid_hash other ≡ true
    → path_eq (path to_lower original hash ext) (path to_lower original other ext') ≡ true
    → hash ≡ other
unfolding valid_hash path
same_hash_of to_lower hash other ext ext' v v' e =
    let (_, _, names) = path_eq-eq original original _ _ _ _ e in
    sym (take-append_of 64 hash _ (ground arith))
    ∙ ap (take 64) names
    ∙ take-append_of 64 other _ (ground arith)

apart :
    (to_lower : Text → Text) (k : Kind) (hash other ext ext' : Text)
    → text_eq hash other ≡ false
    → valid_hash hash ≡ true
    → valid_hash other ≡ true
    → path_eq (path to_lower k hash ext) (path to_lower original other ext') ≡ false
unfolding path
apart to_lower thumb hash other ext ext' new v v' = refl
apart to_lower gallery hash other ext ext' new v v' = refl
apart to_lower original hash other ext ext' new v v' =
    let same = same_hash_of to_lower hash other ext ext' v v' in
    ground (arith, text_eq_iff hash other, same)

removed-keeps :
    (to_lower : Text → Text) (faults : Faults) (k : Kind) (hash ext : Text) (q : FilePath)
    (fs : Files)
    → (valid_hash hash ≡ true → path_eq (path to_lower k hash ext) q ≡ false)
    → has_file q fs ≡ true
    → has_file q (remove to_lower faults k hash ext fs).1 ≡ true
unfolding remove
removed-keeps to_lower faults k hash ext q fs other h = elim (Bool-cases (valid_hash hash)) [
  | inl v ↦ let e = other v in ground (arith, v, e)
  | inr v ↦ rw v h
]

pub remove-keeps :
    (to_lower : Text → Text) (faults : Faults) (k : Kind) (hash ext other ext' : Text) (fs : Files)
    → text_eq hash other ≡ false
    → valid_hash other ≡ true
    → has_file (path to_lower original other ext') fs ≡ true
    → has_file (path to_lower original other ext') (remove to_lower faults k hash ext fs).1 ≡ true
remove-keeps to_lower faults k hash ext other ext' fs new v =
    removed-keeps to_lower faults k hash ext (path to_lower original other ext') fs
      (λ v'. apart to_lower k hash other ext ext' new v' v)
