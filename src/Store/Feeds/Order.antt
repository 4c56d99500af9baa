-- ===== src/Store/Feeds/Order.antt =====
-- ORDER BY: the order of the rows and that none is lost; `TopPhotos` in these terms.
use mathlib.Core.List.{Perm}
use mathlib.Core.List.Perm
use photo_server.Base.{
  ℕ, ◌≡◌, ◌<◌, ◌≤◌, ◌⊎◌, ◌==◌, ltb, ltb→lt, not, none, some, refl, sym, Bool, true, false, List, [],
  ◌∷◌, map, keep, take, All, All-map_of, Bool-cases, inl, inr, Text, arith, ok,
}
use photo_server.Store.Schema.{PhotoRow, Db, no_faults}
use photo_server.Store.Feeds.{
  insert_by, order_by, newest, most_loved, to_item, is_loved, top_photos,
}
use photo_server.Store.Wf.{Below}

module _ {ℓ} {A : Type ℓ} (before : A → A → Bool) where
  -- No row stands before one above it.
  abbrev pub IsOrdered : List A → Type ℓ
  IsOrdered [] = Unit
  IsOrdered (x ∷ xs) = All (λ y. before y x ≡ false) xs × IsOrdered xs

  insert_by-perm : (x : A) (xs : List A) → Perm (insert_by before x xs) (x ∷ xs)
  unfolding insert_by
  insert_by-perm x [] = Perm.refl (x ∷ [])
  insert_by-perm x (y ∷ ys) = elim (Bool-cases (before y x)) [
    | inl e ↦ rw e (Perm.trans (Perm.cons y (insert_by-perm x ys)) (Perm.swap x y ys))
    | inr e ↦ rw e (Perm.refl (x ∷ y ∷ ys))
  ]

  pub order_by-perm : (xs : List A) → Perm (order_by before xs) xs
  unfolding order_by
  order_by-perm [] = Perm.refl []
  order_by-perm (x ∷ xs) =
      Perm.trans (insert_by-perm x (order_by before xs)) (Perm.cons x (order_by-perm xs))

  pub All-insert_by {κ} :
      (P : A → Type κ) (x : A) (xs : List A) → P x → All P xs → All P (insert_by before x xs)
  unfolding insert_by
  All-insert_by P x [] p a = (p, tt)
  All-insert_by P x (y ∷ ys) p a = elim (Bool-cases (before y x)) [
    | inl e ↦ rw e (a.0, All-insert_by P x ys p a.1)
    | inr e ↦ rw e (p, a)
  ]

  pub All-order_by {κ} : (P : A → Type κ) (xs : List A) → All P xs → All P (order_by before xs)
  unfolding order_by
  All-order_by P [] a = tt
  All-order_by P (x ∷ xs) a = All-insert_by P x (order_by before xs) a.0 (All-order_by P xs a.1)

  -- For an order that is asymmetric and whose complement is transitive.
  module _ (asym : (x y : A) → before x y ≡ true → before y x ≡ false)
      (chain : (x y z : A) → before y x ≡ false → before z y ≡ false → before z x ≡ false) where
    insert_by-IsOrdered : (x : A) (xs : List A) → IsOrdered xs → IsOrdered (insert_by before x xs)
    unfolding insert_by
    insert_by-IsOrdered x [] o = (tt, tt)
    insert_by-IsOrdered x (y ∷ ys) o = elim (Bool-cases (before y x)) [
      | inl e ↦ rw e (
        All-insert_by (λ z. before z y ≡ false) x ys (asym y x e) o.0,
        insert_by-IsOrdered x ys o.1,
      )
      | inr e ↦ rw e ((e, All-map_of ys (λ z h. chain x y z e h) o.0), o)
    ]

    pub order_by-IsOrdered : (xs : List A) → IsOrdered (order_by before xs)
    unfolding order_by
    order_by-IsOrdered [] = tt
    order_by-IsOrdered (x ∷ xs) = insert_by-IsOrdered x (order_by before xs) (order_by-IsOrdered xs)

most_loved_asym : (x y : PhotoRow) → most_loved x y ≡ true → most_loved y x ≡ false
most_loved_asym x y h = ground arith

most_loved_chain :
    (x y z : PhotoRow) → most_loved y x ≡ false → most_loved z y ≡ false → most_loved z x ≡ false
most_loved_chain x y z h k = ground arith

insert_by-newest :
    (r : PhotoRow) (rows : List PhotoRow) → Below r.id rows → insert_by newest r rows ≡ r ∷ rows
unfolding insert_by
insert_by-newest r [] b = refl
insert_by-newest r (x ∷ rows) b = ground arith

-- The table stands newest first already.
pub order_by-newest : (n : ℕ) (rows : List PhotoRow) → Below n rows → order_by newest rows ≡ rows
unfolding order_by
order_by-newest n [] b = refl
order_by-newest n (r ∷ rows) b = rw (order_by-newest r.id rows b.1) (insert_by-newest r rows b.1)

-- What stands in front of what in a ranking: more hearts, or as many and no smaller id.
abbrev pub Outranks : PhotoRow → PhotoRow → Type 0
Outranks r s = (s.heart_count < r.heart_count) ⊎ ((s.heart_count ≡ r.heart_count) × (s.id ≤ r.id))

abbrev pub IsRanked : List PhotoRow → Type 0
IsRanked [] = Unit
IsRanked (r ∷ rows) = All (Outranks r) rows × IsRanked rows

-- A photo that the operator has not hidden and that has a heart.
abbrev pub shown_and_hearted : PhotoRow → Bool
shown_and_hearted r = elim r.hidden_at [ none ↦ not (r.heart_count == 0) | some when ↦ false ]

most_loved-Outranks : (r s : PhotoRow) → most_loved s r ≡ false → Outranks r s
most_loved-Outranks r s h = elim (Bool-cases (ltb s.heart_count r.heart_count)) [
  | inl more ↦ inl (ltb→lt _ _ more)
  | inr same ↦ inr (ground (arith, h, same))
]

IsOrdered-IsRanked : (rows : List PhotoRow) → IsOrdered most_loved rows → IsRanked rows
IsOrdered-IsRanked [] o = tt
IsOrdered-IsRanked (r ∷ rows) o =
    (All-map_of rows (λ s h. most_loved-Outranks r s h) o.0, IsOrdered-IsRanked rows o.1)

keep-is_loved : (rows : List PhotoRow) → keep is_loved rows ≡ keep shown_and_hearted rows
keep-is_loved [] = refl
keep-is_loved (r ∷ rows) = ground (arith, keep-is_loved rows)

-- With no failing statement, `TopPhotos` lists the first `limit` photos of a ranking. The ranking has
-- every photo that is not hidden and has a heart, as often as the table has it, and no other; a photo
-- stands in it in front of another only if it has more hearts, or as many and no smaller id.
pub top_photos_lem :
    (viewer : Text) (limit : ℕ) (db : Db)
    → (ranking : List PhotoRow) × IsRanked ranking
      × Perm ranking (keep shown_and_hearted db.photos)
      × (top_photos no_faults viewer limit db
          ≡ (ok (map (to_item db.hearts viewer) (take limit ranking)), db))
unfolding top_photos
top_photos_lem viewer limit db = (
  order_by most_loved (keep is_loved db.photos),
  IsOrdered-IsRanked (order_by most_loved (keep is_loved db.photos))
      (order_by-IsOrdered most_loved most_loved_asym most_loved_chain (keep is_loved db.photos)),
  rw (sym (keep-is_loved db.photos)) (order_by-perm most_loved (keep is_loved db.photos)),
  refl,
)
