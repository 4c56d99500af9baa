-- ===== src/Store/Migrations/Resuming.antt =====
-- Migrating again, after a success and after a failure.
use photo_server.Base.{
  ◌≡◌, refl, subst, sym, ap, ◌∙◌, inl, inr, Bool, true, false, Option, none, some, List, [], ◌∷◌,
  All, All-map_of, ℤ, Result, err, arith, Bool-cases, Option-cases,
}
use photo_server.Store.Feeds.{order_by}
use photo_server.Store.Feeds.Order.{IsOrdered, order_by-IsOrdered}
use photo_server.Store.Migrations.{
  Migration, Entry, SchemaState, int_lt, int_eq, older, has_repeat, apply_one, apply_all,
  read_migrations, load_migrations, sorted_or_none, migrate,
}

abbrev Later : ℤ → Migration → Type 0
Later v m = int_lt v m.version ≡ true

-- Versions rise along the list.
abbrev Rising : List Migration → Type 0
Rising [] = Unit {0}
Rising (m ∷ ms) = All (Later m.version) ms × Rising ms

int_lt_trans : (a b c : ℤ) → int_lt a b ≡ true → int_lt b c ≡ true → int_lt a c ≡ true
int_lt_trans a b c h k = ground arith

int_lt_asym : (a b : ℤ) → int_lt a b ≡ true → int_lt b a ≡ false
int_lt_asym a b h = ground arith

int_lt_of_not : (a b : ℤ) → int_lt b a ≡ false → int_eq a b ≡ false → int_lt a b ≡ true
int_lt_of_not a b h k = ground arith

int_le_trans : (a b c : ℤ) → int_lt b a ≡ false → int_lt c b ≡ false → int_lt c a ≡ false
int_le_trans a b c h k = ground arith

int_lt_irrefl : (a : ℤ) → int_lt a a ≡ false
int_lt_irrefl a = ground arith

int_lt_chain : (a b c : ℤ) → int_lt a b ≡ true → int_lt c b ≡ false → int_lt a c ≡ true
int_lt_chain a b c h k = ground arith

abbrev pub none_fails : Migration → Bool
none_fails m = false

-- Migrations that all come behind both versions run the same from either.
apply_all_from :
    (fails : Migration → Bool) (a b : ℤ) (ms : List Migration) (s : SchemaState)
    → All (Later a) ms
    → All (Later b) ms
    → apply_all fails a ms s ≡ apply_all fails b ms s
unfolding apply_all
apply_all_from fails a b [] s h k = refl
apply_all_from fails a b (m ∷ ms) s h k =
    ground (arith, apply_all_from fails a b ms (apply_one m s) h.1 k.1)

-- The version never falls below one that all migrations come behind.
apply_all-version :
    (fails : Migration → Bool) (a v : ℤ) (ms : List Migration) (s : SchemaState)
    → All (Later v) ms
    → int_lt s.version v ≡ false
    → int_lt (apply_all fails a ms s).1.version v ≡ false
unfolding apply_all
apply_all-version fails a v [] s h k = k
apply_all-version fails a v (m ∷ ms) s h k = ground (
  arith,
  apply_all-version fails a v ms s h.1 k,
  apply_all-version fails a v ms (apply_one m s) h.1 (int_lt_asym v m.version h.0),
)

module _ (fails : Migration → Bool) (c : ℤ) (m : Migration) (ms : List Migration)
    (s : SchemaState) where
  apply_all-skips :
      int_lt c m.version ≡ false → apply_all fails c (m ∷ ms) s ≡ apply_all fails c ms s
  unfolding apply_all
  apply_all-skips h = rw h refl

  apply_all-stops :
      int_lt c m.version ≡ true → fails m ≡ true → apply_all fails c (m ∷ ms) s ≡ (err, s)
  unfolding apply_all
  apply_all-stops h f = rw (h, f) refl

  apply_all-goes_on :
      int_lt c m.version ≡ true
      → fails m ≡ false
      → apply_all fails c (m ∷ ms) s ≡ apply_all fails c ms (apply_one m s)
  unfolding apply_all
  apply_all-goes_on h f = rw (h, f) refl

abbrev half : (Migration → Bool) → List Migration → SchemaState → SchemaState
half fails ms s = (apply_all fails s.version ms s).1

abbrev whole : List Migration → SchemaState → Result (Unit {0}) × SchemaState
whole ms s = apply_all none_fails s.version ms s

-- The state after a run that may have failed does not ask for `m` again if it is not below it.
whole-skips :
    (m : Migration) (ms : List Migration) (t : SchemaState)
    → int_lt t.version m.version ≡ false
    → whole (m ∷ ms) t ≡ whole ms t
whole-skips m ms t h = apply_all-skips none_fails t.version m ms t h

resume_nothing :
    (fails : Migration → Bool) (s : SchemaState) → whole [] (half fails [] s) ≡ whole [] s
unfolding apply_all
resume_nothing fails s = refl

resume :
    (fails : Migration → Bool) (ms : List Migration) (s : SchemaState)
    → Rising ms
    → whole ms (half fails ms s) ≡ whole ms s
resume fails [] s r = resume_nothing fails s
resume fails (m ∷ ms) s r = elim (Bool-cases (int_lt s.version m.version)) [
  | inr old ↦
      ap (λ t. whole (m ∷ ms) t.1) (apply_all-skips fails s.version m ms s old)
      ∙ whole-skips m ms (half fails ms s)
          (apply_all-version fails s.version m.version ms s r.0 old)
      ∙ resume fails ms s r.1
      ∙ sym (whole-skips m ms s old)
  | inl new ↦ elim (Bool-cases (fails m)) [
    | inl f ↦ ap (λ t. whole (m ∷ ms) t.1) (apply_all-stops fails s.version m ms s new f)
    | inr f ↦
        let next = apply_one m s in
        let behind : All (Later s.version) ms =
          All-map_of ms (λ n h. int_lt_trans s.version m.version n.version new h) r.0 in
        ap (λ t. whole (m ∷ ms) t.1)
          (apply_all-goes_on fails s.version m ms s new f
            ∙ apply_all_from fails s.version m.version ms next behind r.0)
        ∙ whole-skips m ms (half fails ms next)
            (apply_all-version fails m.version m.version ms next r.0 (int_lt_irrefl m.version))
        ∙ resume fails ms next r.1
        ∙ sym (apply_all_from none_fails s.version m.version ms next behind r.0)
        ∙ sym (apply_all-goes_on none_fails s.version m ms s new refl)
  ]
]

Rising-IsOrdered : (ms : List Migration) → IsOrdered older ms → has_repeat ms ≡ false → Rising ms
Rising-IsOrdered [] o h = tt
Rising-IsOrdered (m ∷ []) o h = (tt, tt)
Rising-IsOrdered (m ∷ n ∷ ms) o h =
    let rest = Rising-IsOrdered (n ∷ ms) o.1 (ground arith) in
    let first = int_lt_of_not m.version n.version o.0.0 (ground arith) in
    (
      (
        first,
        All-map_of ms (λ k later. int_lt_trans m.version n.version k.version first later) rest.0,
      ),
      rest,
    )

older_asym : (m n : Migration) → older m n ≡ true → older n m ≡ false
older_asym m n h = int_lt_asym m.version n.version h

older_chain : (m n k : Migration) → older n m ≡ false → older k n ≡ false → older k m ≡ false
older_chain m n k h j = int_le_trans m.version n.version k.version h j

sorted-Rising :
    (o : Option (List Migration)) (ms : List Migration) → sorted_or_none o ≡ some ms → Rising ms
sorted-Rising none ms e = absurd (cc)
sorted-Rising (some given) ms e = elim (Bool-cases (has_repeat (order_by older given))) [
  | inl r ↦ absurd (ground arith)
  | inr r ↦ subst Rising (ground arith) (
      Rising-IsOrdered (order_by older given)
        (order_by-IsOrdered older older_asym older_chain given) r)
]

load_migrations-Rising :
    (es : List Entry) (ms : List Migration) → load_migrations es ≡ some ms → Rising ms
unfolding load_migrations
load_migrations-Rising es ms e = sorted-Rising (read_migrations es) ms e

-- Whichever migration of the embedded files fails, a later start at which none fails leaves the
-- database as one start without a failure would have left it.
pub migrate_resumes :
    (fails : Migration → Bool) (es : List Entry) (s : SchemaState)
    → migrate none_fails es (migrate fails es s).1 ≡ migrate none_fails es s
unfolding migrate
migrate_resumes fails es s = elim (Option-cases (load_migrations es)) [
  | inl e ↦ rw e refl
  | inr (ms, e) ↦ rw e (resume fails ms s (load_migrations-Rising es ms e))
]
