-- ===== src/Pricing/Requests.antt =====
-- The requests on product prices, and what every sequence of them keeps.
use apparel_network.Prelude.{ℕ}
use apparel_network.Prelude.Text.{Text}
use apparel_network.Tables.Enums.{price_status_enum}
use apparel_network.Session.{Session, Tables, Action, discard}
use apparel_network.Session.Preserves.{Preserves}
use apparel_network.Session.Runs.{Runs}
use apparel_network.Pricing.Validation.{ProductPriceCreate}
use apparel_network.Pricing.Service.{ProductPriceUpdate, create, update_owned, delete_owned}
use apparel_network.Pricing.Invariant.{HasPrices}

abbrev KeptPrices : Session → Type 0
KeptPrices s = HasPrices s.prices

pub data Request : Type 0 where
  creation : ProductPriceCreate → Request
  change : (price_id owner_id : ℕ) → ProductPriceUpdate → Request
  deletion : (price_id owner_id expected_version : ℕ) → Request

unfoldable pub handle : (upper lower : Text → Text) → Request → Action Unit
handle upper lower (Request.creation values) = discard (create upper lower values)
handle upper lower (Request.change price_id owner_id values) =
    discard (update_owned upper lower price_id owner_id values)
handle upper lower (Request.deletion price_id owner_id expected_version) =
    delete_owned price_id owner_id expected_version
