-- ===== src/Session/Succeeds.antt =====
-- Total correctness of an action: it returns, and its postcondition holds. One rule for each
-- statement; a guard's rule asks that the guard passes.
use apparel_network.Prelude.{ℕ, ◌+◌, ◌≡◌, refl, Bool, true, false, Option, none, some}
use apparel_network.Errors.{AppError, Result, ok, err}
use apparel_network.Session.{
  Session, Tables, Action, return, gets, require, modify, raise_if, branch, check, now_utc, uuid7,
  db_now, ◌>>=◌, ◌>>◌, continue, fetch, update_where,
}

abbrev pub OnSuccess : {A : Type 0} → (A → Session → Type 0) → Result A → Session → Type 0
OnSuccess Q (ok a) s = Q a s
OnSuccess Q (err e) s = ⊥

pub record Succeeds {A : Type 0} (m : Action A) (s : Session) (Q : A → Session → Type 0)
    : Type 0 where
  pub at : OnSuccess Q (m s).0 (m s).1

module _ {A : Type 0} where
  pub Succeeds-return :
      {Q : A → Session → Type 0} (a : A) (s : Session) → Q a s → Succeeds (return a) s Q
  unfolding return
  Succeeds-return a s q = record { at = q }

  -- Weakening.
  pub Succeeds-map :
      {m : Action A} {s : Session} {P Q : A → Session → Type 0}
      → Succeeds m s P
      → ((a : A) (s' : Session) → P a s' → Q a s')
      → Succeeds m s Q
  Succeeds-map {m} {s} {P} {Q} h f = record { at = weaken (m s).0 (m s).1 h.at }
    where
      weaken : (r : Result A) (s' : Session) → OnSuccess P r s' → OnSuccess Q r s'
      weaken (ok a) s' p = f a s' p
      weaken (err e) s' p = p

module _ {A B : Type 0} {Q : B → Session → Type 0} where
  pub Succeeds-bind :
      {m : Action A} {f : A → Action B} {s : Session} {P : A → Session → Type 0}
      → Succeeds m s P
      → ((a : A) (s' : Session) → P a s' → Succeeds (f a) s' Q)
      → Succeeds (m >>= f) s Q
  unfolding ◌>>=◌
  Succeeds-bind {m} {f} {s} {P} h k = record { at = go (m s).0 (m s).1 h.at }
    where
      go :
          (r : Result A) (s' : Session)
          → OnSuccess P r s'
          → OnSuccess Q (continue r f s').0 (continue r f s').1
      go (ok a) s' p = (k a s' p).at
      go (err e) s' p = absurd p

  pub Succeeds-gets :
      (g : Tables → A) (f : A → Action B) {s : Session}
      → Succeeds (f (g s.db)) s Q
      → Succeeds (gets g >>= f) s Q
  unfolding ◌>>=◌
  Succeeds-gets g f h = record { at = h.at }

  pub Succeeds-require :
      {o : Option A} (e : AppError) (f : A → Action B) {s : Session} {a : A}
      → o ≡ some a
      → Succeeds (f a) s Q
      → Succeeds (require o e >>= f) s Q
  unfolding ◌>>=◌
  Succeeds-require e f found h = record { at = rw (found, ◌>>=◌) (h.at) }

  pub Succeeds-fetch :
      (g : Tables → Option A) (e : AppError) (f : A → Action B) {s : Session} {a : A}
      → g s.db ≡ some a
      → Succeeds (f a) s Q
      → Succeeds (fetch g e >>= f) s Q
  unfolding ◌>>=◌ fetch
  Succeeds-fetch g e f found h = record { at = rw (found, ◌>>=◌, fetch) (h.at) }

  pub Succeeds-update_where :
      (g : Tables → Option A) (store : A → Tables → Tables) (change : ℕ → A → A) (e : AppError)
      (f : A → Action B) {s : Session} {row : A}
      → g s.db ≡ some row
      → (let row' = change s.world.transaction_time row in
          Succeeds (f row') (record s { db = store row' s.db }) Q)
      → Succeeds (update_where g store change >>= λ r. require r e >>= f) s Q
  unfolding ◌>>=◌ update_where
  Succeeds-update_where g store change e f found h = record {
    at = rw (found, ◌>>=◌, update_where) (h.at);
  }

module _ {B : Type 0} {Q : B → Session → Type 0} where
  pub Succeeds-raise_if :
      {b : Bool} (e : AppError) {k : Action B} {s : Session}
      → b ≡ false
      → Succeeds k s Q
      → Succeeds (raise_if b e >> k) s Q
  unfolding ◌>>=◌
  Succeeds-raise_if e pass h = record { at = rw (pass, ◌>>=◌) (h.at) }

  pub Succeeds-check :
      {o : Option AppError} {k : Action B} {s : Session}
      → o ≡ none
      → Succeeds k s Q
      → Succeeds (check o >> k) s Q
  unfolding ◌>>=◌
  Succeeds-check pass h = record { at = rw (pass, ◌>>=◌) (h.at) }

  pub Succeeds-branch :
      {b : Bool} (m n : Action B) {s : Session}
      → (b ≡ true → Succeeds m s Q)
      → (b ≡ false → Succeeds n s Q)
      → Succeeds (branch b m n) s Q
  unfolding branch
  Succeeds-branch {b = true} m n h k = h refl
  Succeeds-branch {b = false} m n h k = k refl

  pub Succeeds-now :
      (f : ℕ → Action B) {s : Session}
      → Succeeds (f (s.world.clock s.clock_reads)) (record s { clock_reads = s.clock_reads + 1 }) Q
      → Succeeds (now_utc >>= f) s Q
  unfolding ◌>>=◌
  Succeeds-now f h = record { at = h.at }

  pub Succeeds-uuid :
      (f : ℕ → Action B) {s : Session}
      → Succeeds (f (s.world.uuid7 s.uuids_drawn)) (record s { uuids_drawn = s.uuids_drawn + 1 }) Q
      → Succeeds (uuid7 >>= f) s Q
  unfolding ◌>>=◌
  Succeeds-uuid f h = record { at = h.at }

  pub Succeeds-db_now :
      (f : ℕ → Action B) {s : Session}
      → Succeeds (f s.world.transaction_time) s Q
      → Succeeds (db_now >>= f) s Q
  unfolding ◌>>=◌
  Succeeds-db_now f h = record { at = h.at }

  pub Succeeds-modify :
      (g : Tables → Tables) {k : Action B} {s : Session}
      → Succeeds k (record s { db = g s.db }) Q
      → Succeeds (modify g >> k) s Q
  unfolding ◌>>=◌
  Succeeds-modify g h = record { at = h.at }

pub Succeeds-modify_last :
    {Q : Unit {0} → Session → Type 0} (g : Tables → Tables) {s : Session}
    → Q tt (record s { db = g s.db })
    → Succeeds (modify g) s Q
unfolding modify
Succeeds-modify_last g h = record { at = h }
