-- ===== src/Session/Runs.antt =====
-- Sequences of requests, each one transaction in a session of its own.
use apparel_network.Errors.{Result, ok, err}
use apparel_network.Session.{Session, Tables, World, Action, atomically}
use apparel_network.Session.Preserves.{Preserves}

abbrev pub opened : World → Tables → Session
opened w db = record { world = w; clock_reads = 0; uuids_drawn = 0; db = db }

-- The tables after a request: the environment chooses the clock and the identifiers.
unfoldable pub committed : {A : Type 0} → World → Action A → Tables → Tables
committed w m db = (atomically m (opened w db)).1.db

-- What an action keeps in every state a request keeps, whether it is committed or rolled back.
pub committed-keeps :
    {A : Type 0} (I : Tables → Type 0) (w : World) (m : Action A) (db : Tables)
    → I db
    → Preserves (λ s. I s.db) m (opened w db)
    → I (committed w m db)
unfolding committed atomically
committed-keeps {A} I w m db before h = settle (m (opened w db)).0 (m (opened w db)).1 h.after
  where
    settle :
        (r : Result A) (s' : Session)
        → I s'.db
        → I
            (elim r as (λ _. Result A × Session) [
              | ok a ↦ (ok a, s')
              | err e ↦ (err e, record s' { db = db })
            ]).1.db
    settle (ok a) s' p = p
    settle (err e) s' p = before

-- The tables that requests of one kind lead to.
pub data Runs {R : Type 0} (handle : R → Action (Unit {0})) : Tables → Tables → Type 0 where
  no_request : (db : Tables) → Runs handle db db
  then_request :
      (db mid : Tables) (w : World) (r : R)
      → Runs handle db mid
      → Runs handle db (committed w (handle r) mid)

-- An invariant that every request keeps is kept by every sequence of them.
pub Runs-keeps :
    {R : Type 0} (handle : R → Action (Unit {0})) (I : Tables → Type 0)
    → ((r : R) (s : Session) → I s.db → Preserves (λ s'. I s'.db) (handle r) s)
    → (db db' : Tables) → Runs handle db db'
    → I db
    → I db'
Runs-keeps handle I step db _ (Runs.no_request _) h = h
Runs-keeps handle I step db _ (Runs.then_request _ mid w r before) h =
    let kept = Runs-keeps handle I step db mid before h in
    committed-keeps I w (handle r) mid kept (step r (opened w mid) kept)
