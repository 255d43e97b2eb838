-- ===== src/Inventory/Invariant.antt =====
-- What the stock tables satisfy: the CHECK constraints of inventory/infrastructure/models.py, and
-- the agreement of every item with its ledger of movements.
use apparel_network.Prelude.{
  ℕ, ◌≤◌, ◌≡◌, refl, sym, ap, ◌∙◌, ◌≢◌, List, [], ◌∷◌, ◌++◌, arith, ◌==◌, if◌then◌else◌, All,
  All-snoc, All-save, save,
}
use apparel_network.Prelude.Int.{ℤ, pos, ◌+ℤ◌, ◌-ℤ◌, ◌≤ℤ◌, int_laws}
use apparel_network.Tables.Inventory.{InventoryItem, InventoryMovement}
use apparel_network.Session.{Tables}
use apparel_network.Inventory.Repository.{item_key}

-- the constraints of `inventory_items`
pub record IsSoundItem (i : InventoryItem) : Type 0 where
  pub on_hand_nonnegative : pos 0 ≤ℤ i.quantity_on_hand
  pub reserved_nonnegative : pos 0 ≤ℤ i.quantity_reserved
  pub available_nonnegative : pos 0 ≤ℤ i.quantity_available
  pub available_derived : i.quantity_available ≡ i.quantity_on_hand -ℤ i.quantity_reserved
  pub threshold_nonnegative : pos 0 ≤ℤ i.low_stock_threshold
  pub version_positive : 1 ≤ i.version

-- the constraints of `inventory_movements`
pub record IsSoundMovement (m : InventoryMovement) : Type 0 where
  pub on_hand_delta : m.new_on_hand ≡ m.previous_on_hand +ℤ m.quantity_delta
  pub previous_on_hand_nonnegative : pos 0 ≤ℤ m.previous_on_hand
  pub new_on_hand_nonnegative : pos 0 ≤ℤ m.new_on_hand
  pub previous_available_nonnegative : pos 0 ≤ℤ m.previous_available
  pub new_available_nonnegative : pos 0 ≤ℤ m.new_available
  pub reservation_nonnegative : pos 0 ≤ℤ m.reservation_quantity

-- The sum of the movements of one item.
unfoldable pub balance : ℕ → List InventoryMovement → ℤ
balance id [] = pos 0
balance id (m ∷ ms) =
    let rest = balance id ms in if m.inventory_id == id then m.quantity_delta +ℤ rest else rest

abbrev pub Reconciles : List InventoryMovement → InventoryItem → Type 0
Reconciles ms i = i.quantity_on_hand ≡ balance i.id ms

pub record IsGoodItem (ms : List InventoryMovement) (i : InventoryItem) : Type 0 where
  pub sound : IsSoundItem i
  pub reconciles : Reconciles ms i

pub record IsStock (items : List InventoryItem) (ms : List InventoryMovement) : Type 0 where
  pub good : All (IsGoodItem ms) items
  pub sound : All IsSoundMovement ms

abbrev pub HasStock : Tables → Type 0
HasStock db = IsStock db.inventory db.movements

-- No row of the stock tables goes by an identifier.
pub record IsUnused (id : ℕ) (db : Tables) : Type 0 where
  pub items : All (λ i. i.id ≢ id) db.inventory
  pub movements : All (λ m. m.inventory_id ≢ id) db.movements

zero_add : (a : ℤ) → pos 0 +ℤ a ≡ a
zero_add a = omega int_laws

balance-snoc_ne :
    (id : ℕ) (ms : List InventoryMovement) (m : InventoryMovement)
    → m.inventory_id ≢ id
    → balance id (ms ++ m ∷ []) ≡ balance id ms
unfolding balance
balance-snoc_ne id [] m h = ground arith
balance-snoc_ne id (x ∷ ms) m h = ground (arith, balance-snoc_ne id ms m h)

balance-snoc_self :
    (id : ℕ) (ms : List InventoryMovement) (m : InventoryMovement)
    → m.inventory_id ≡ id
    → balance id (ms ++ m ∷ []) ≡ balance id ms +ℤ m.quantity_delta
unfolding balance
balance-snoc_self id [] m h = grind int_laws
balance-snoc_self id (x ∷ ms) m h = grind (int_laws, balance-snoc_self id ms m h)

balance_unused :
    (id : ℕ) (ms : List InventoryMovement)
    → All (λ m. m.inventory_id ≢ id) ms
    → balance id ms ≡ pos 0
unfolding balance
balance_unused id [] h = refl
balance_unused id (x ∷ ms) h = ground (arith, balance_unused id ms h.1)

-- One item and one movement for it, which accounts for the change of the quantity on hand.
pub record Accounts (existing item : InventoryItem) (m : InventoryMovement) : Type 0 where
  pub same_item : item.id ≡ existing.id
  pub for_item : m.inventory_id ≡ existing.id
  pub accounted : item.quantity_on_hand ≡ existing.quantity_on_hand +ℤ m.quantity_delta
  pub sound_item : IsSoundItem item
  pub sound_movement : IsSoundMovement m

module _ {items : List InventoryItem} {ms : List InventoryMovement} (stock : IsStock items ms)
    (existing item : InventoryItem) (good : IsGoodItem ms existing) where
  pub move-IsStock :
      (m : InventoryMovement)
      → Accounts existing item m
      → IsStock (save item_key item items) (ms ++ m ∷ [])
  move-IsStock m a = record {
    good =
        All-save item_key (IsGoodItem ms) (IsGoodItem (ms ++ m ∷ [])) item items stock.good
          (λ x h ne. record {
            sound = h.sound;
            reconciles = h.reconciles ∙ sym (balance-snoc_ne x.id ms m (other x ne));
          })
          (record {
            sound = a.sound_item;
            reconciles =
                a.accounted
                ∙ ap (λ q. q +ℤ m.quantity_delta)
                    (good.reconciles ∙ ap (λ id. balance id ms) (sym a.same_item))
                ∙ sym (balance-snoc_self item.id ms m (a.for_item ∙ sym a.same_item));
          });
    sound = All-snoc IsSoundMovement ms stock.sound a.sound_movement;
  }
    where
      other : (x : InventoryItem) → x.id ≢ item.id → m.inventory_id ≢ x.id
      other x ne e = ne (sym e ∙ a.for_item ∙ sym a.same_item)

  -- A write that leaves the quantity on hand alone needs no movement.
  pub keep-IsStock :
      item.id ≡ existing.id
      → item.quantity_on_hand ≡ existing.quantity_on_hand
      → IsSoundItem item
      → IsStock (save item_key item items) ms
  keep-IsStock same on_hand sound = record {
    good =
        All-save item_key (IsGoodItem ms) (IsGoodItem ms) item items stock.good (λ x h ne. h)
          (record {
            sound = sound;
            reconciles = on_hand ∙ good.reconciles ∙ ap (λ id. balance id ms) (sym same);
          });
    sound = stock.sound;
  }

-- A new item with its first movement.
pub add-IsStock :
    {items : List InventoryItem} {ms : List InventoryMovement} (item : InventoryItem)
    (m : InventoryMovement)
    → IsStock items ms
    → All (λ i. i.id ≢ item.id) items
    → All (λ x. x.inventory_id ≢ item.id) ms
    → m.inventory_id ≡ item.id
    → m.quantity_delta ≡ item.quantity_on_hand
    → IsSoundItem item
    → IsSoundMovement m
    → IsStock (items ++ item ∷ []) (ms ++ m ∷ [])
add-IsStock {items} {ms} item m stock new_item new_movement for_item delta sound sound_movement =
    record {
      good = All-snoc (IsGoodItem (ms ++ m ∷ [])) items (old items stock.good new_item) fresh;
      sound = All-snoc IsSoundMovement ms stock.sound sound_movement;
    }
  where
    old :
        (xs : List InventoryItem)
        → All (IsGoodItem ms) xs
        → All (λ i. i.id ≢ item.id) xs
        → All (IsGoodItem (ms ++ m ∷ [])) xs
    old [] h n = tt
    old (x ∷ xs) h n = (
      record {
        sound = h.0.sound;
        reconciles = h.0.reconciles ∙ sym (balance-snoc_ne x.id ms m (λ e. n.0 (sym e ∙ for_item)));
      },
      old xs h.1 n.1,
    )

    fresh : IsGoodItem (ms ++ m ∷ []) item
    fresh = record {
      sound = sound;
      reconciles = sym (
          balance-snoc_self item.id ms m for_item
          ∙ ap (λ q. q +ℤ m.quantity_delta) (balance_unused item.id ms new_movement)
          ∙ zero_add m.quantity_delta
          ∙ delta);
    }
