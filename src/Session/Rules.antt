-- ===== src/Session/Rules.antt =====
-- A postcondition of an action that holds whenever it returns, with one rule for each way to build
-- an action. A proof about a handler is the tree of these rules, one for each of its statements.
use apparel_network.Prelude.{
  ℕ, ◌+◌, ◌≡◌, refl, Bool, true, false, Option, none, some, Bool-cases, inl, inr,
}
use apparel_network.Errors.{AppError, Result, ok, err}
use apparel_network.Session.{
  Session, Tables, Action, return, raise, gets, require, modify, raise_if, branch, check, now_utc,
  uuid7, db_now, ◌>>=◌, ◌>>◌, continue, atomically,
}

abbrev pub OnReturn : {A : Type 0} → (A → Session → Type 0) → Result A → Session → Type 0
OnReturn Q (ok a) s = Q a s
OnReturn Q (err e) s = Unit

pub record Ensures {A : Type 0} (m : Action A) (s : Session) (Q : A → Session → Type 0)
    : Type 0 where
  pub at : OnReturn Q (m s).0 (m s).1

module _ {A : Type 0} where
  pub Ensures-return :
      {Q : A → Session → Type 0} (a : A) (s : Session) → Q a s → Ensures (return a) s Q
  unfolding return
  Ensures-return a s q = record { at = q }

  pub Ensures-raise :
      {Q : A → Session → Type 0} (e : AppError) (s : Session) → Ensures (raise e) s Q
  unfolding raise
  Ensures-raise e s = record { at = tt }

  -- Weakening.
  pub Ensures-map :
      {m : Action A} {s : Session} {P Q : A → Session → Type 0}
      → Ensures m s P
      → ((a : A) (s' : Session) → P a s' → Q a s')
      → Ensures m s Q
  Ensures-map {m} {s} {P} {Q} h f = record { at = weaken (m s).0 (m s).1 h.at }
    where
      weaken : (r : Result A) (s' : Session) → OnReturn P r s' → OnReturn Q r s'
      weaken (ok a) s' p = f a s' p
      weaken (err e) s' p = tt

module _ {A B : Type 0} {Q : B → Session → Type 0} where
  pub Ensures-bind :
      {m : Action A} {f : A → Action B} {s : Session} {P : A → Session → Type 0}
      → Ensures m s P
      → ((a : A) (s' : Session) → P a s' → Ensures (f a) s' Q)
      → Ensures (m >>= f) s Q
  unfolding ◌>>=◌
  Ensures-bind {m} {f} {s} {P} h k = record { at = go (m s).0 (m s).1 h.at }
    where
      go :
          (r : Result A) (s' : Session)
          → OnReturn P r s'
          → OnReturn Q (continue r f s').0 (continue r f s').1
      go (ok a) s' p = (k a s' p).at
      go (err e) s' p = tt

module _ {B : Type 0} {Q : B → Session → Type 0} where
  -- After `if test: raise e` the test has failed.
  pub Ensures-raise_if :
      {b : Bool} (e : AppError) {k : Action B} {s : Session}
      → (b ≡ false → Ensures k s Q)
      → Ensures (raise_if b e >> k) s Q
  unfolding ◌>>=◌
  Ensures-raise_if {b} e h = elim (Bool-cases b) [
    | inl t ↦ record { at = rw (t, ◌>>=◌) tt }
    | inr t ↦ record { at = rw (t, ◌>>=◌) ((h t).at) }
  ]

  pub Ensures-check :
      {o : Option AppError} {k : Action B} {s : Session}
      → (o ≡ none → Ensures k s Q)
      → Ensures (check o >> k) s Q
  unfolding ◌>>=◌
  Ensures-check {o = none} h = record { at = (h refl).at }
  Ensures-check {o = some e} h = record { at = tt }

  pub Ensures-branch :
      {b : Bool} (m n : Action B) {s : Session}
      → (b ≡ true → Ensures m s Q)
      → (b ≡ false → Ensures n s Q)
      → Ensures (branch b m n) s Q
  unfolding branch
  Ensures-branch {b = true} m n h k = h refl
  Ensures-branch {b = false} m n h k = k refl

  pub Ensures-now :
      {f : ℕ → Action B} {s : Session}
      → ((t : ℕ) → Ensures (f t) (record s { clock_reads = s.clock_reads + 1 }) Q)
      → Ensures (now_utc >>= f) s Q
  unfolding ◌>>=◌
  Ensures-now {s = s} h = record { at = (h (s.world.clock s.clock_reads)).at }

  pub Ensures-uuid :
      (f : ℕ → Action B) {s : Session}
      → Ensures (f (s.world.uuid7 s.uuids_drawn)) (record s { uuids_drawn = s.uuids_drawn + 1 }) Q
      → Ensures (uuid7 >>= f) s Q
  unfolding ◌>>=◌
  Ensures-uuid f h = record { at = h.at }

  pub Ensures-db_now :
      (f : ℕ → Action B) {s : Session}
      → Ensures (f s.world.transaction_time) s Q
      → Ensures (db_now >>= f) s Q
  unfolding ◌>>=◌
  Ensures-db_now f h = record { at = h.at }

  pub Ensures-modify :
      (g : Tables → Tables) {k : Action B} {s : Session}
      → Ensures k (record s { db = g s.db }) Q
      → Ensures (modify g >> k) s Q
  unfolding ◌>>=◌
  Ensures-modify g h = record { at = h.at }

module _ {A B : Type 0} {Q : B → Session → Type 0} where
  pub Ensures-require :
      {o : Option A} (e : AppError) {f : A → Action B} {s : Session}
      → ((a : A) → o ≡ some a → Ensures (f a) s Q)
      → Ensures (require o e >>= f) s Q
  unfolding ◌>>=◌
  Ensures-require {o = none} e h = record { at = tt }
  Ensures-require {o = some a} e h = record { at = (h a refl).at }

  pub Ensures-require_some :
      {a : A} (e : AppError) (f : A → Action B) {s : Session}
      → Ensures (f a) s Q
      → Ensures (require (some a) e >>= f) s Q
  unfolding ◌>>=◌
  Ensures-require_some e f h = record { at = h.at }

  pub Ensures-gets :
      (g : Tables → A) (f : A → Action B) {s : Session}
      → Ensures (f (g s.db)) s Q
      → Ensures (gets g >>= f) s Q
  unfolding ◌>>=◌
  Ensures-gets g f h = record { at = h.at }

-- A request that raises has changed no table; one that returns has its action's postcondition. So
-- an invariant of the tables that a service call keeps is kept by the request, however it ends.
pub atomically-keeps :
    {A : Type 0} (I : Tables → Type 0) (m : Action A) (s : Session)
    → I s.db
    → Ensures m s (λ _ s'. I s'.db)
    → I (atomically m s).1.db
unfolding atomically
atomically-keeps {A} I m s before h = settle (m s).0 (m s).1 h.at
  where
    settle :
        (r : Result A) (s' : Session)
        → OnReturn (λ _ s'. I s'.db) r s'
        → I
            (elim r as (λ _. Result A × Session) [
              | ok a ↦ (ok a, s')
              | err e ↦ (err e, record s' { db = s.db })
            ]).1.db
    settle (ok a) s' p = p
    settle (err e) s' p = before
