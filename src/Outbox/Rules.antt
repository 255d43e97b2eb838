-- ===== src/Outbox/Rules.antt =====
-- Proof rules for the publication of an event, which touches the outbox, the clock and the source
-- of identifiers alone.
use apparel_network.Prelude.{◌+◌, [], ◌∷◌, ◌++◌}
use apparel_network.Tables.Shipping.{OutboxEvent}
use apparel_network.Session.{Action, Session, ◌>>=◌, ◌>>◌}
use apparel_network.Session.Preserves.{Preserves}
use apparel_network.Session.Succeeds.{Succeeds}
use apparel_network.Session.Rules.{Ensures}
use apparel_network.Outbox.{DomainEvent, write, publish}

-- the session after an event
abbrev pub published : OutboxEvent → Session → Session
published row s = record s {
  uuids_drawn = s.uuids_drawn + 1;
  clock_reads = s.clock_reads + 1;
  db = record s.db { outbox = s.outbox ++ row ∷ [] };
}

module _ {B : Type 0} {I : Session → Type 0} where
  pub Preserves-write :
      (event : DomainEvent) {k : Action B} {s : Session}
      → ((row : OutboxEvent) → Preserves I k (published row s))
      → Preserves I (write event >> k) s
  unfolding write ◌>>=◌
  Preserves-write event h = record { after = (h _).after }

  pub Preserves-publish :
      (event : DomainEvent) {k : Action B} {s : Session}
      → ((row : OutboxEvent) → Preserves I k (published row s))
      → Preserves I (publish event >> k) s
  unfolding publish ◌>>=◌
  Preserves-publish event h = record { after = (h _).after }

module _ {B : Type 0} {Q : B → Session → Type 0} where
  pub Succeeds-write :
      (event : DomainEvent) {k : Action B} {s : Session}
      → ((row : OutboxEvent) → Succeeds k (published row s) Q)
      → Succeeds (write event >> k) s Q
  unfolding write ◌>>=◌
  Succeeds-write event h = record { at = (h _).at }

  pub Succeeds-publish :
      (event : DomainEvent) {k : Action B} {s : Session}
      → ((row : OutboxEvent) → Succeeds k (published row s) Q)
      → Succeeds (publish event >> k) s Q
  unfolding publish ◌>>=◌
  Succeeds-publish event h = record { at = (h _).at }

module _ {B : Type 0} {Q : B → Session → Type 0} where
  pub Ensures-write :
      (event : DomainEvent) {k : Action B} {s : Session}
      → ((row : OutboxEvent) → Ensures k (published row s) Q)
      → Ensures (write event >> k) s Q
  unfolding write ◌>>=◌
  Ensures-write event h = record { at = (h _).at }

pub Preserves-write_last :
    {I : Session → Type 0} (event : DomainEvent) {s : Session}
    → ((row : OutboxEvent) → I (published row s))
    → Preserves I (write event) s
unfolding write ◌>>=◌
Preserves-write_last event h = record { after = h _ }

pub Preserves-publish_last :
    {I : Session → Type 0} (event : DomainEvent) {s : Session}
    → ((row : OutboxEvent) → I (published row s))
    → Preserves I (publish event) s
unfolding publish ◌>>=◌
Preserves-publish_last event h = record { after = h _ }
