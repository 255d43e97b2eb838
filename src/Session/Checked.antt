-- ===== src/Session/Checked.antt =====
-- Validations as values, the services' classes `*ValidationService`: the first failure, or what the
-- validation returns; and what is known of that.
use apparel_network.Prelude.{◌≡◌, refl, true, false, String, Bool, if◌then◌else◌}
use apparel_network.Errors.{AppError, validation}
use apparel_network.Session.{Session, Action, return, raise, ◌>>=◌}
use apparel_network.Session.Preserves.{Preserves}
use apparel_network.Session.Rules.{Ensures}
use apparel_network.Session.Succeeds.{Succeeds}

-- a validation: the first failure, or the value
pub data Checked (A : Type 0) : Type 0 where
  valid : A → Checked A
  invalid : AppError → Checked A

infixl 5 ◌then_check◌
unfoldable pub ◌then_check◌ : {A B : Type 0} → Checked A → (A → Checked B) → Checked B
Checked.valid a then_check f = f a
Checked.invalid e then_check f = Checked.invalid e

abbrev pub fail_if : Bool → String → String → Checked Unit
fail_if b field message = if b then Checked.invalid (validation field message) else Checked.valid tt

-- a failure of the validation is raised
unfoldable pub raise_invalid : {A : Type 0} → Checked A → Action A
unfolding return raise
raise_invalid (Checked.valid a) = return a
raise_invalid (Checked.invalid e) = raise e

-- what a validation lets through
abbrev pub Holds : {A : Type 0} → (A → Type 0) → Checked A → Type 0
Holds P (Checked.valid a) = P a
Holds P (Checked.invalid e) = Unit

pub record Lets {A : Type 0} (P : A → Type 0) (c : Checked A) : Type 0 where
  pub checked : Holds P c

module _ {A B : Type 0} (Q : B → Type 0) where
  pub Lets-then :
      (P : A → Type 0) (c : Checked A) (f : A → Checked B)
      → Holds P c
      → ((a : A) → P a → Lets Q (f a))
      → Lets Q (c then_check f)
  unfolding ◌then_check◌
  Lets-then P (Checked.valid a) f h k = record { checked = (k a h).checked }
  Lets-then P (Checked.invalid e) f h k = record { checked = tt }

  pub Lets-any :
      (c : Checked A) (f : A → Checked B) → ((a : A) → Lets Q (f a)) → Lets Q (c then_check f)
  unfolding ◌then_check◌
  Lets-any (Checked.valid a) f k = record { checked = (k a).checked }
  Lets-any (Checked.invalid e) f k = record { checked = tt }

module _ {A B : Type 0} (Q : B → Type 0) (P : A → Type 0) where
  pub Lets-bind :
      (c : Checked A) (f : A → Checked B)
      → Lets P c
      → ((a : A) → P a → Lets Q (f a))
      → Lets Q (c then_check f)
  Lets-bind c f h k = Lets-then Q P c f h.checked k

module _ {B : Type 0} (Q : B → Type 0) where
  pub Lets-fail_if :
      (b : Bool) (field message : String) (f : Unit → Checked B)
      → (b ≡ false → Lets Q (f tt))
      → Lets Q (fail_if b field message then_check f)
  unfolding ◌then_check◌
  Lets-fail_if true field message f k = record { checked = tt }
  Lets-fail_if false field message f k = record { checked = (k refl).checked }

  pub Lets-valid : (b : B) → Q b → Lets Q (Checked.valid b)
  Lets-valid b h = record { checked = h }

pub Lets-fail_last :
    (Q : Unit → Type 0) (b : Bool) (field message : String)
    → (b ≡ false → Q tt)
    → Lets Q (fail_if b field message)
Lets-fail_last Q true field message k = record { checked = tt }
Lets-fail_last Q false field message k = record { checked = k refl }

module _ {A B : Type 0} {I : Session → Type 0} (P : A → Type 0) where
  pub Preserves-valid :
      (c : Checked A) (f : A → Action B) {s : Session}
      → I s
      → Lets P c
      → ((a : A) → P a → Preserves I (f a) s)
      → Preserves I (raise_invalid c >>= f) s
  unfolding raise_invalid ◌>>=◌
  Preserves-valid (Checked.valid a) f now h k = record { after = (k a h.checked).after }
  Preserves-valid (Checked.invalid e) f now h k = record { after = now }

module _ {A B : Type 0} {Q : B → Session → Type 0} where
  pub Ensures-valid :
      (c : Checked A) (f : A → Action B) {s : Session}
      → ((a : A) → Ensures (f a) s Q)
      → Ensures (raise_invalid c >>= f) s Q
  unfolding raise_invalid ◌>>=◌
  Ensures-valid (Checked.valid a) f k = record { at = (k a).at }
  Ensures-valid (Checked.invalid e) f k = record { at = tt }

  pub Succeeds-valid :
      {c : Checked A} (f : A → Action B) {s : Session} {a : A}
      → c ≡ Checked.valid a
      → Succeeds (f a) s Q
      → Succeeds (raise_invalid c >>= f) s Q
  unfolding raise_invalid ◌>>=◌
  Succeeds-valid f passed h = record { at = rw (passed, ◌>>=◌) (h.at) }
