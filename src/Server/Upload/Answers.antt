-- ===== src/Server/Upload/Answers.antt =====
-- The results of an upload: one for each file, whatever becomes of the others.
use photo_server.Base.{
  ℕ, suc, sym, ◌<◌, ◌^◌, text_eq, bytes, is_empty, not, ◌&&◌, true, false, if◌then◌else◌, ◌≡◌, refl,
  ap, ◌∙◌, Bool, some, List, [], ◌∷◌, ◌++◌, Text, arith,
}
use photo_server.Server.Upload.{Library, World, UploadResult, FilePart, store_one_part}
use photo_server.Server.Upload.Parts.{
  Part, field, file, malformed, Progress, field_value, walk, add_result, on_field,
}
use photo_server.Server.Upload.Accepting.{
  has_session, IsGood, IsAccepted, store_one_part-filename, good-IsAccepted,
  store_one_part-sessions,
}

append-snoc {ℓ} :
    {A : Type ℓ} (xs : List A) (t : A) (ys : List A) → (xs ++ t ∷ []) ++ ys ≡ xs ++ t ∷ ys
append-snoc [] t ys = refl
append-snoc (x ∷ xs) t ys = ap (◌∷◌ x) (append-snoc xs t ys)

append-nil {ℓ} : {A : Type ℓ} (xs : List A) → xs ++ [] ≡ xs
append-nil [] = refl
append-nil (x ∷ xs) = ap (◌∷◌ x) (append-nil xs)

on_field-results :
    (lib : Library) (key value : Text) (p : Progress)
    → (on_field lib key value p).results ≡ p.results
on_field-results lib key value p = ground arith

-- The body has no part that cannot be read.
abbrev pub is_whole : List Part → Bool
is_whole [] = true
is_whole (field key value ∷ parts) = is_whole parts
is_whole (file f ∷ parts) = is_whole parts
is_whole (malformed ∷ parts) = false

-- The name that a field leaves for the files to come.
abbrev pub name_after : Library → Text → Text → Text → Text
name_after lib key value name =
    if text_eq key (bytes "display_name") && not (is_empty (field_value lib value))
    then field_value lib value
    else name

-- The files, each with the name that it is stored under.
abbrev pub named : Library → Text → List Part → List (Text × FilePart)
named lib name [] = []
named lib name (field key value ∷ parts) = named lib (name_after lib key value name) parts
named lib name (file f ∷ parts) = (name, f) ∷ named lib name parts
named lib name (malformed ∷ parts) = []

on_field-name :
    (lib : Library) (key value : Text) (p : Progress)
    → (on_field lib key value p).display_name ≡ name_after lib key value p.display_name
on_field-name lib key value p = ground arith

module _ (lib : Library) (max : ℕ) where
  -- One result for each file, in their order and under their names, and every good one accepted.
  abbrev pub Answered : List (Text × FilePart) → List UploadResult → Type 0
  Answered [] [] = Unit
  Answered [] (r ∷ rs) = ⊥
  Answered (nf ∷ files) [] = ⊥
  Answered ((name, f) ∷ files) (r ∷ rs) =
      (r.filename ≡ f.filename) × (IsGood lib max f → IsAccepted lib f r) × Answered files rs

  module _ (session_id : Text) where
    -- Every file is stored, whatever became of those before it.
    abbrev pub store_each : List (Text × FilePart) → World → List UploadResult × World
    store_each [] w = ([], w)
    store_each ((name, f) ∷ files) w =
        let stored = store_one_part lib max session_id name f w in
        let rest = store_each files stored.1 in (stored.0 ∷ rest.0, rest.1)

    store_each-Answered :
        (files : List (Text × FilePart)) (w : World)
        → suc max < 2 ^ 63
        → has_session session_id w.db ≡ true
        → Answered files (store_each files w).0
    store_each-Answered [] w room known = tt
    store_each-Answered ((name, f) ∷ files) w room known = (
      store_one_part-filename lib max session_id name f w,
      good-IsAccepted lib max session_id name f w room known,
      store_each-Answered files (store_one_part lib max session_id name f w).1 room
          (rw (store_one_part-sessions lib max session_id name f w) known),
    )

    walk-store_each :
        (parts : List Part) (p : Progress) (w : World)
        → is_whole parts ≡ true
        → (q : Progress) × (walk lib max session_id parts p w
            ≡ (some q, (store_each (named lib p.display_name parts) w).1))
          × (q.results ≡ p.results ++ (store_each (named lib p.display_name parts) w).0)
    unfolding walk
    walk-store_each [] p w h = (p, refl, sym (append-nil p.results))
    walk-store_each (field key value ∷ parts) p w h =
        let (q, walked, results) = walk-store_each parts (on_field lib key value p) w h in
        let name = on_field-name lib key value p in
        (
          q,
          walked ∙ ap (λ (n : Text). (some q, (store_each (named lib n parts) w).1)) name,
          results
              ∙ ap
                  (λ (n : Text).
                    (on_field lib key value p).results ++ (store_each (named lib n parts) w).0)
                  name
              ∙ ap
                  (λ rs.
                    rs
                    ++ (store_each (named lib (name_after lib key value p.display_name) parts) w).0)
                  (on_field-results lib key value p),
        )
    walk-store_each (file f ∷ parts) p w h =
        let stored = store_one_part lib max session_id p.display_name f w in
        let (q, walked, results) = walk-store_each parts (add_result stored.0 p) stored.1 h in
        (q, walked, results ∙ append-snoc p.results stored.0 _)
    walk-store_each (malformed ∷ parts) p w h = absurd (cc)

-- Let the cap be under the greatest of 63 bits, and the guest's session be in the database, or none be
-- configured. A body whose parts can all be read is walked to its end: each file is stored after those
-- before it, whatever became of them, under the name that is in force at its place, and its result is
-- appended under its file name. Every recognised image within the cap that is read, filed and recorded
-- without an error is accepted under the digest of its body.
pub walk_answers_all :
    (lib : Library) (max : ℕ) (session_id : Text) (parts : List Part) (p : Progress) (w : World)
    → suc max < 2 ^ 63
    → has_session session_id w.db ≡ true
    → is_whole parts ≡ true
    → let files = named lib p.display_name parts in
      let (results, after) = store_each lib max session_id files w in
      ((q : Progress) × (walk lib max session_id parts p w ≡ (some q, after))
        × (q.results ≡ p.results ++ results))
      × Answered lib max files results
walk_answers_all lib max session_id parts p w room known whole = (
  walk-store_each lib max session_id parts p w whole,
  store_each-Answered lib max session_id (named lib p.display_name parts) w room known,
)
