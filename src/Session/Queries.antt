-- ===== src/Session/Queries.antt =====
-- Partial-correctness rules for the two compound statements of the repositories: a query that must
-- find a row, and a guarded write.
use apparel_network.Prelude.{◌≡◌, Option, none, some, Option-cases, inl, inr, ℕ}
use apparel_network.Errors.{AppError, Result, ok, err}
use apparel_network.Session.{continue, Session, Tables, Action, fetch, require, update_where, ◌>>=◌}
use apparel_network.Session.Rules.{Ensures, OnReturn}
use apparel_network.Session.Preserves.{Preserves}

module _ {A B : Type 0} {Q : B → Session → Type 0} where
  pub Ensures-fetch :
      (g : Tables → Option A) (e : AppError) (f : A → Action B) {s : Session}
      → ((a : A) → g s.db ≡ some a → Ensures (f a) s Q)
      → Ensures (fetch g e >>= f) s Q
  unfolding ◌>>=◌ fetch
  Ensures-fetch g e f {s} h = elim (Option-cases (g s.db)) [
    | inl missing ↦ record { at = rw (missing, ◌>>=◌, fetch) tt }
    | inr (a, found) ↦ record { at = rw (found, ◌>>=◌, fetch) ((h a found).at) }
  ]

  pub Ensures-update_where :
      (g : Tables → Option A) (store : A → Tables → Tables) (change : ℕ → A → A) (e : AppError)
      (f : A → Action B) {s : Session}
      → ((row : A)
          → g s.db ≡ some row
          → let row' = change s.world.transaction_time row in
            Ensures (f row') (record s { db = store row' s.db }) Q)
      → Ensures (update_where g store change >>= λ r. require r e >>= f) s Q
  unfolding ◌>>=◌ update_where
  Ensures-update_where g store change e f {s} h = elim (Option-cases (g s.db)) [
    | inl missing ↦ record { at = rw (missing, ◌>>=◌, update_where) tt }
    | inr (row, found) ↦ record { at = rw (found, ◌>>=◌, update_where) ((h row found).at) }
  ]

-- An action with an invariant and a postcondition, before the rest.
pub Preserves-bind_ensures :
    {A B : Type 0} {I : Session → Type 0} {R : A → Session → Type 0} {m : Action A}
    {f : A → Action B} {s : Session}
    → Preserves I m s
    → Ensures m s R
    → ((a : A) (s' : Session) → I s' → R a s' → Preserves I (f a) s')
    → Preserves I (m >>= f) s
unfolding ◌>>=◌
Preserves-bind_ensures {A} {B} {I} {R} {m} {f} {s} h r k = record {
  after = go (m s).0 (m s).1 h.after r.at;
}
  where
    go :
        (result : Result A) (s' : Session)
        → I s'
        → OnReturn R result s'
        → I (continue result f s').1
    go (ok a) s' p q = (k a s' p q).after
    go (err e) s' p q = p

-- An action that keeps more than the invariant, before the rest, which may use what it keeps.
pub Preserves-seq :
    {A B : Type 0} {I J : Session → Type 0} {m : Action A} {f : A → Action B} {s : Session}
    → Preserves J m s
    → ((s' : Session) → J s' → I s')
    → ((a : A) (s' : Session) → J s' → Preserves I (f a) s')
    → Preserves I (m >>= f) s
unfolding ◌>>=◌
Preserves-seq {A} {B} {I} {J} {m} {f} {s} h weaken k = record { after = go (m s).0 (m s).1 h.after }
  where
    go : (result : Result A) (s' : Session) → J s' → I (continue result f s').1
    go (ok a) s' p = (k a s' p).after
    go (err e) s' p = weaken s' p

-- What an action keeps however it ends holds when it returns.
pub Preserves-Ensures :
    {A : Type 0} {I : Session → Type 0} {m : Action A} {s : Session}
    → Preserves I m s
    → Ensures m s (λ _. I)
Preserves-Ensures {A} {I} {m} {s} h = record { at = go (m s).0 (m s).1 h.after }
  where
    go : (result : Result A) (s' : Session) → I s' → OnReturn (λ _. I) result s'
    go (ok a) s' p = p
    go (err e) s' p = tt

-- Two postconditions of one action.
pub Ensures-both :
    {A : Type 0} {P Q : A → Session → Type 0} {m : Action A} {s : Session}
    → Ensures m s P
    → Ensures m s Q
    → Ensures m s (λ a s'. P a s' × Q a s')
Ensures-both {A} {P} {Q} {m} {s} p q = record { at = go (m s).0 (m s).1 p.at q.at }
  where
    go :
        (result : Result A) (s' : Session)
        → OnReturn P result s'
        → OnReturn Q result s'
        → OnReturn (λ a s''. P a s'' × Q a s'') result s'
    go (ok a) s' x y = (x, y)
    go (err e) s' x y = tt

module _ {A B : Type 0} {Q : B → Session → Type 0} where
  pub Ensures-update_option :
      (g : Tables → Option A) (store : A → Tables → Tables) (change : ℕ → A → A)
      (f : Option A → Action B) {s : Session}
      → Ensures (f none) s Q
      → ((row : A)
          → g s.db ≡ some row
          → let row' = change s.world.transaction_time row in
            Ensures (f (some row')) (record s { db = store row' s.db }) Q)
      → Ensures (update_where g store change >>= f) s Q
  unfolding ◌>>=◌ update_where
  Ensures-update_option g store change f {s} h k = elim (Option-cases (g s.db)) [
    | inl missing ↦ record { at = rw (missing, ◌>>=◌, update_where) (h.at) }
    | inr (row, found) ↦ record { at = rw (found, ◌>>=◌, update_where) ((k row found).at) }
  ]
