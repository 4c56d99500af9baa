-- ===== src/Blobs/Contents.antt =====
-- What the blob store holds: complete files only, under the digest of their content.
use photo_server.Base.{
  ℕ, zero, suc, ◌≡◌, ◌⊎◌, inl, inr, refl, sym, ◌∙◌, ap, true, false, Option, none, some, [], ◌∷◌,
  ◌++◌, Text, text_eq_iff, text_eq_refl, length, take, ok, arith, Option-cases, subst,
}
use photo_server.Blobs.{
  Kind, original, kind_eq, FilePath, blob, temp, path_eq, Files, has_file, norm_ext, path, Faults,
  Source, Stored, cleans, put_original,
}

abbrev pub Agrees : (Text → Text) → Text → Option Text → Type 0
Agrees digest name none = Unit {0}
Agrees digest name (some c) = take 64 name ≡ digest c

-- Every original's name begins with the digest of what the file holds.
abbrev pub Addressed : (Text → Text) → Files → Type 0
Addressed digest fs = (shard name : Text) → Agrees digest name (fs (blob original shard name))

pub take-append_of : (n : ℕ) (s t : Text) → length s ≡ n → take n (s ++ t) ≡ s
take-append_of zero [] t h = refl
take-append_of zero (c ∷ s) t h = absurd (omega arith)
take-append_of (suc n) [] t h = absurd (omega arith)
take-append_of (suc n) (c ∷ s) t h = ap (◌∷◌ c) (take-append_of n s t (omega arith))

kind_eq-eq : (k j : Kind) → kind_eq k j ≡ true → k ≡ j
kind_eq-eq k j h = ground arith

pub path_eq-eq :
    (k j : Kind) (s t n m : Text)
    → path_eq (blob k s n) (blob j t m) ≡ true
    → (k ≡ j) × (s ≡ t) × (n ≡ m)
path_eq-eq k j s t n m h = (
  kind_eq-eq k j (ground arith),
  ground (arith, text_eq_iff s t),
  ground (arith, text_eq_iff n m),
)

pub path_eq_same : (p q : FilePath) → path_eq p q ≡ true → p ≡ q
path_eq_same (blob k s n) (blob j t m) h =
    let (kinds, shards, names) = path_eq-eq k j s t n m h in
    ap (λ i. blob i s n) kinds ∙ ap (λ (u : Text). blob j u n) shards ∙ ap (blob j t) names
path_eq_same (temp k i) (temp j h) e =
    ap (λ n. temp n i) (kind_eq-eq k j (ground arith)) ∙ ap (temp j) (ground arith)
path_eq_same (blob k s n) (temp j h) e = absurd (cc)
path_eq_same (temp j h) (blob k s n) e = absurd (cc)

module _ (digest to_lower : Text → Text) where
  abbrev pub final_path : Source → Text → FilePath
  final_path source ext = path to_lower original (digest source.content) (norm_ext to_lower ext)

  pub put_original_atomic :
      (faults : Faults) (id : ℕ) (source : Source) (ext : Text) (fs : Files) (k : Kind)
      (shard name : Text)
      → let after = (put_original digest to_lower faults id source ext fs).1 in
        (after (blob k shard name) ≡ fs (blob k shard name))
        ⊎ ((path_eq (final_path source ext) (blob k shard name) ≡ true)
            × (has_file (final_path source ext) fs ≡ false)
            × (after (blob k shard name) ≡ some source.content))
  unfolding put_original path
  put_original_atomic faults id source ext fs k shard name = ground arith

  -- An answer without an error names the digest and the size of the content, and the file is there.
  pub put_original_ok :
      (faults : Faults) (id : ℕ) (source : Source) (ext : Text) (fs : Files) (s : Stored)
      → (put_original digest to_lower faults id source ext fs).0 ≡ ok s
      → (s.hash ≡ digest source.content)
        × (s.size ≡ length source.content)
        × (has_file (final_path source ext) (put_original digest to_lower faults id source ext fs).1
            ≡ true)
  unfolding put_original path
  put_original_ok faults id source ext fs s e = ground (
    arith,
    text_eq_refl (take 2 (digest source.content)),
    text_eq_refl (digest source.content ++ norm_ext to_lower (norm_ext to_lower ext)),
  )

  -- No temporary file stays behind, whichever other step fails.
  pub put_original_cleans :
      (faults : Faults) (id : ℕ) (source : Source) (ext : Text) (fs : Files)
      → faults cleans ≡ false
      → fs (temp original id) ≡ none
      → (put_original digest to_lower faults id source ext fs).1 (temp original id) ≡ none
  unfolding put_original path
  put_original_cleans faults id source ext fs h e = ground arith

  named_by_digest :
      (source : Source) (ext shard name : Text)
      → length (digest source.content) ≡ 64
      → path_eq (final_path source ext) (blob original shard name) ≡ true
      → take 64 name ≡ digest source.content
  unfolding path
  named_by_digest source ext shard name h e =
      let (_, _, same) = path_eq-eq original original _ shard _ name e in
      ap (take 64) (sym same) ∙ take-append_of 64 (digest source.content) _ h

  -- Where digests have 64 characters, storing an upload keeps every original under the digest of
  -- its content, whatever fails.
  pub put_original-Addressed :
      (faults : Faults) (id : ℕ) (source : Source) (ext : Text) (fs : Files)
      → length (digest source.content) ≡ 64
      → Addressed digest fs
      → Addressed digest (put_original digest to_lower faults id source ext fs).1
  put_original-Addressed faults id source ext fs h a shard name =
      elim (put_original_atomic faults id source ext fs original shard name) [
        | inl same ↦ subst (Agrees digest name) (sym same) (a shard name)
        | inr (here, _, new) ↦
            subst (Agrees digest name) (sym new) (named_by_digest source ext shard name h here)
      ]

  pub has_file-some :
      (p : FilePath) (fs : Files) → has_file p fs ≡ true → (c : Text) × (fs p ≡ some c)
  has_file-some p fs h = elim (Option-cases (fs p)) [
    | inl e ↦ absurd (ground arith)
    | inr found ↦ found
  ]
