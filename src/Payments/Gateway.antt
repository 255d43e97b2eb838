-- ===== src/Payments/Gateway.antt =====
-- payments/application/gateways.py: the provider that the service calls, as an interface, and the
-- adapter of payments/infrastructure/gateway.py. A call of a provider is one answer; what the
-- provider does with the money is outside.
use apparel_network.Prelude.{ℕ, String, Option, some, List, [], ◌∷◌, get_or_else}
use Prim.Native.String as StringLib
use apparel_network.Tables.Enums.{PaymentStatus}

pub record PaymentGatewayResult : Type 0 where
  pub provider_reference : String
  pub provider_transaction_id : String
  pub status : PaymentStatus
  pub payload : List (String × String)

-- `PaymentGateway`, the calls on a payment that exists
pub record PaymentGateway : Type 0 where
  pub authorize : (payment_id : ℕ) → (provider_reference : String) → PaymentGatewayResult
  pub capture : (payment_id : ℕ) → (provider_reference : String) → PaymentGatewayResult
  pub cancel : (payment_id : ℕ) → (provider_reference : String) → PaymentGatewayResult

-- `NullPaymentGateway._result`; `str` of an identifier is Python's
null_result : (ℕ → String) → ℕ → String → PaymentStatus → Option String → PaymentGatewayResult
null_result str payment_id operation status provider_reference = record {
  provider_reference = get_or_else provider_reference (StringLib.◌++◌ "null-" (str payment_id));
  provider_transaction_id =
      StringLib.◌++◌ "null-" (StringLib.◌++◌ operation (StringLib.◌++◌ "-" (str payment_id)));
  status = status;
  payload = ("gateway", "null") ∷ ("operation", operation) ∷ [];
}

-- `NullPaymentGateway`
unfoldable pub null_gateway : (ℕ → String) → PaymentGateway
unfolding null_result
null_gateway str = record {
  authorize =
      λ id reference. null_result str id "authorized" PaymentStatus.authorized (some reference);
  capture = λ id reference. null_result str id "captured" PaymentStatus.captured (some reference);
  cancel = λ id reference. null_result str id "cancelled" PaymentStatus.cancelled (some reference);
}
