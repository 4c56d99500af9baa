-- ===== src/Store/Wf/Evolution.antt =====
-- The databases that come of one by the calls that write.
use photo_server.Base.{◌≡◌, refl, subst, sym, Bool, true, false}
use photo_server.Store.Schema.{Db, Faults, query}
use photo_server.Store.Wf.{Wf}
use photo_server.Store.Wf.History.{Operation, step, step-Wf}

-- By the calls of the allowed kinds.
pub data Evolves (allows : Operation → Bool) (db : Db) : Db → Type 0 where
  same : Evolves allows db db
  writes :
      {later : Db}
      → Evolves allows db later
      → (faults : Faults) (op : Operation) → allows op ≡ true
      → Evolves allows db (step later (faults, op))

module _ {allows : Operation → Bool} where
  pub Evolves-trans : {a b c : Db} → Evolves allows a b → Evolves allows b c → Evolves allows a c
  Evolves-trans e same = e
  Evolves-trans e (writes f faults op may) = writes (Evolves-trans e f) faults op may

  pub Evolves-call :
      {db : Db} (faults : Faults) (op : Operation)
      → allows op ≡ true
      → Evolves allows db (step db (faults, op))
  Evolves-call faults op may = writes same faults op may

  pub Evolves-to : {a b c : Db} → Evolves allows a b → c ≡ b → Evolves allows a c
  Evolves-to {a} e q = subst (Evolves allows a) (sym q) e

  pub Evolves-more :
      {more : Operation → Bool} {a b : Db}
      → ((op : Operation) → allows op ≡ true → more op ≡ true)
      → Evolves allows a b
      → Evolves more a b
  Evolves-more f same = same
  Evolves-more f (writes e faults op may) = writes (Evolves-more f e) faults op (f op may)

  pub Evolves-Wf : {a b : Db} → Evolves allows a b → Wf a → Wf b
  Evolves-Wf same w = w
  Evolves-Wf (writes {later} e faults op may) w = step-Wf later (faults, op) (Evolves-Wf e w)

-- A query leaves the database.
pub query-keeps : {A : Type 0} (faulty : Bool) (f : Db → A) (db : Db) → (query faulty f db).1 ≡ db
query-keeps false f db = refl
query-keeps true f db = refl
