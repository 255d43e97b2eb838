-- ===== src/Session/Preserves.antt =====
-- Invariants of the session that an action keeps however it ends, with a rule for each statement.
use apparel_network.Prelude.{
  ℕ, ◌+◌, Bool-cases, inl, inr, Option-cases, Bool, true, false, Option, none, some, ◌≡◌, refl,
}
use apparel_network.Errors.{AppError, Result, ok, err}
use apparel_network.Session.{
  Session, Tables, Action, return, raise, gets, modify, require, raise_if, branch, check, now_utc,
  uuid7, db_now, update_where, fetch, discard, ◌>>=◌, ◌>>◌, continue,
}

pub record Preserves {A : Type 0} (I : Session → Type 0) (m : Action A) (s : Session) : Type 0 where
  pub after : I (m s).1

module _ {A : Type 0} {I : Session → Type 0} where
  pub Preserves-return : (a : A) (s : Session) → I s → Preserves I (return a) s
  unfolding return
  Preserves-return a s h = record { after = h }

  pub Preserves-raise : (e : AppError) (s : Session) → I s → Preserves {A = A} I (raise e) s
  unfolding raise
  Preserves-raise e s h = record { after = h }

module _ {A B : Type 0} {I : Session → Type 0} where
  pub Preserves-bind :
      {m : Action A} {f : A → Action B} {s : Session}
      → Preserves I m s
      → ((a : A) (s' : Session) → I s' → Preserves I (f a) s')
      → Preserves I (m >>= f) s
  unfolding ◌>>=◌
  Preserves-bind {m} {f} {s} h k = record { after = go (m s).0 (m s).1 h.after }
    where
      go : (r : Result A) (s' : Session) → I s' → I (continue r f s').1
      go (ok a) s' p = (k a s' p).after
      go (err e) s' p = p

  pub Preserves-gets :
      (g : Tables → A) (f : A → Action B) {s : Session}
      → Preserves I (f (g s.db)) s
      → Preserves I (gets g >>= f) s
  unfolding ◌>>=◌
  Preserves-gets g f h = record { after = h.after }

module _ {B : Type 0} {I : Session → Type 0} where
  pub Preserves-modify :
      (g : Tables → Tables) {k : Action B} {s : Session}
      → Preserves I k (record s { db = g s.db })
      → Preserves I (modify g >> k) s
  unfolding ◌>>=◌
  Preserves-modify g h = record { after = h.after }

  pub Preserves-raise_if :
      {b : Bool} (e : AppError) {k : Action B} {s : Session}
      → I s
      → (b ≡ false → Preserves I k s)
      → Preserves I (raise_if b e >> k) s
  unfolding ◌>>=◌
  Preserves-raise_if {b} e now h = elim (Bool-cases b) [
    | inl t ↦ record { after = rw (t, ◌>>=◌) now }
    | inr t ↦ record { after = rw (t, ◌>>=◌) ((h t).after) }
  ]

  pub Preserves-check :
      {o : Option AppError} {k : Action B} {s : Session}
      → I s
      → (o ≡ none → Preserves I k s)
      → Preserves I (check o >> k) s
  unfolding ◌>>=◌
  Preserves-check {o = none} now h = record { after = (h refl).after }
  Preserves-check {o = some e} now h = record { after = now }

  pub Preserves-branch :
      {b : Bool} (m n : Action B) {s : Session}
      → (b ≡ true → Preserves I m s)
      → (b ≡ false → Preserves I n s)
      → Preserves I (branch b m n) s
  unfolding branch
  Preserves-branch {b = true} m n h k = h refl
  Preserves-branch {b = false} m n h k = k refl

  pub Preserves-now :
      (f : ℕ → Action B) {s : Session}
      → Preserves I (f (s.world.clock s.clock_reads)) (record s { clock_reads = s.clock_reads + 1 })
      → Preserves I (now_utc >>= f) s
  unfolding ◌>>=◌
  Preserves-now f h = record { after = h.after }

  pub Preserves-uuid :
      (f : ℕ → Action B) {s : Session}
      → Preserves I (f (s.world.uuid7 s.uuids_drawn)) (record s { uuids_drawn = s.uuids_drawn + 1 })
      → Preserves I (uuid7 >>= f) s
  unfolding ◌>>=◌
  Preserves-uuid f h = record { after = h.after }

  pub Preserves-db_now :
      (f : ℕ → Action B) {s : Session}
      → Preserves I (f s.world.transaction_time) s
      → Preserves I (db_now >>= f) s
  unfolding ◌>>=◌
  Preserves-db_now f h = record { after = h.after }

module _ {A B : Type 0} {I : Session → Type 0} where
  pub Preserves-require :
      {o : Option A} (e : AppError) {f : A → Action B} {s : Session}
      → I s
      → ((a : A) → o ≡ some a → Preserves I (f a) s)
      → Preserves I (require o e >>= f) s
  unfolding ◌>>=◌
  Preserves-require {o = none} e now h = record { after = now }
  Preserves-require {o = some a} e now h = record { after = (h a refl).after }

  pub Preserves-fetch :
      (g : Tables → Option A) (e : AppError) (f : A → Action B) {s : Session}
      → I s
      → ((a : A) → g s.db ≡ some a → Preserves I (f a) s)
      → Preserves I (fetch g e >>= f) s
  unfolding ◌>>=◌ fetch
  Preserves-fetch g e f {s} now h = elim (Option-cases (g s.db)) [
    | inl missing ↦ record { after = rw (missing, ◌>>=◌, fetch) now }
    | inr (a, found) ↦ record { after = rw (found, ◌>>=◌, fetch) ((h a found).after) }
  ]

  -- A row that was selected is written; if there is none, the handler raises.
  pub Preserves-update_where :
      (g : Tables → Option A) (store : A → Tables → Tables) (change : ℕ → A → A) (e : AppError)
      (f : A → Action B) {s : Session}
      → I s
      → ((row : A)
          → g s.db ≡ some row
          → let row' = change s.world.transaction_time row in
            Preserves I (f row') (record s { db = store row' s.db }))
      → Preserves I (update_where g store change >>= λ r. require r e >>= f) s
  unfolding ◌>>=◌ update_where
  Preserves-update_where g store change e f {s} now h = elim (Option-cases (g s.db)) [
    | inl missing ↦ record { after = rw (missing, ◌>>=◌, update_where) now }
    | inr (row, found) ↦ record { after = rw (found, ◌>>=◌, update_where) ((h row found).after) }
  ]

module _ {A B : Type 0} {I : Session → Type 0} where
  -- A row that was selected is written, and the handler goes on either way.
  pub Preserves-update_option :
      (g : Tables → Option A) (store : A → Tables → Tables) (change : ℕ → A → A)
      (f : Option A → Action B) {s : Session}
      → Preserves I (f none) s
      → ((row : A)
          → g s.db ≡ some row
          → let row' = change s.world.transaction_time row in
            Preserves I (f (some row')) (record s { db = store row' s.db }))
      → Preserves I (update_where g store change >>= f) s
  unfolding ◌>>=◌ update_where
  Preserves-update_option g store change f {s} h k = elim (Option-cases (g s.db)) [
    | inl missing ↦ record { after = rw (missing, ◌>>=◌, update_where) (h.after) }
    | inr (row, found) ↦ record { after = rw (found, ◌>>=◌, update_where) ((k row found).after) }
  ]

pub Preserves-modify_last :
    {I : Session → Type 0} (g : Tables → Tables) {s : Session}
    → I (record s { db = g s.db })
    → Preserves I (modify g) s
unfolding modify
Preserves-modify_last g h = record { after = h }

pub Preserves-discard :
    {A : Type 0} {I : Session → Type 0} (m : Action A) (s : Session)
    → Preserves I m s
    → Preserves I (discard m) s
unfolding discard
Preserves-discard m s h = Preserves-bind h λ _ s' kept. Preserves-return _ s' kept
