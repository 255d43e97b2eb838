-- ===== src/Pricing/Money.antt =====
-- pricing/domain/currencies.py, and `Money` of pricing/domain/models.py. Python's `str.upper` is a
-- parameter.
use apparel_network.Prelude.{
  ℕ, ◌*◌, ◌^◌, ◌-◌, String, Bool, Option, none, some, List, [], ◌∷◌, any, ltb, if◌then◌else◌,
}
use apparel_network.Prelude.Int.{ℤ, pos, negsuc}
use apparel_network.Prelude.Text.{Text, codes, strip, eq_text}

-- `ISO_4217_CODES`
abbrev pub iso_4217_codes : List Text
iso_4217_codes =
    codes "AED"
    ∷ codes "AFN"
    ∷ codes "ALL"
    ∷ codes "AMD"
    ∷ codes "ANG"
    ∷ codes "AOA"
    ∷ codes "ARS"
    ∷ codes "AUD"
    ∷ codes "AWG"
    ∷ codes "AZN"
    ∷ codes "BAM"
    ∷ codes "BBD"
    ∷ codes "BDT"
    ∷ codes "BGN"
    ∷ codes "BHD"
    ∷ codes "BIF"
    ∷ codes "BMD"
    ∷ codes "BND"
    ∷ codes "BOB"
    ∷ codes "BOV"
    ∷ codes "BRL"
    ∷ codes "BSD"
    ∷ codes "BTN"
    ∷ codes "BWP"
    ∷ codes "BYN"
    ∷ codes "BZD"
    ∷ codes "CAD"
    ∷ codes "CDF"
    ∷ codes "CHE"
    ∷ codes "CHF"
    ∷ codes "CHW"
    ∷ codes "CLF"
    ∷ codes "CLP"
    ∷ codes "CNY"
    ∷ codes "COP"
    ∷ codes "COU"
    ∷ codes "CRC"
    ∷ codes "CUC"
    ∷ codes "CUP"
    ∷ codes "CVE"
    ∷ codes "CZK"
    ∷ codes "DJF"
    ∷ codes "DKK"
    ∷ codes "DOP"
    ∷ codes "DZD"
    ∷ codes "EGP"
    ∷ codes "ERN"
    ∷ codes "ETB"
    ∷ codes "EUR"
    ∷ codes "FJD"
    ∷ codes "FKP"
    ∷ codes "GBP"
    ∷ codes "GEL"
    ∷ codes "GHS"
    ∷ codes "GIP"
    ∷ codes "GMD"
    ∷ codes "GNF"
    ∷ codes "GTQ"
    ∷ codes "GYD"
    ∷ codes "HKD"
    ∷ codes "HNL"
    ∷ codes "HTG"
    ∷ codes "HUF"
    ∷ codes "IDR"
    ∷ codes "ILS"
    ∷ codes "INR"
    ∷ codes "IQD"
    ∷ codes "IRR"
    ∷ codes "ISK"
    ∷ codes "JMD"
    ∷ codes "JOD"
    ∷ codes "JPY"
    ∷ codes "KES"
    ∷ codes "KGS"
    ∷ codes "KHR"
    ∷ codes "KMF"
    ∷ codes "KPW"
    ∷ codes "KRW"
    ∷ codes "KWD"
    ∷ codes "KYD"
    ∷ codes "KZT"
    ∷ codes "LAK"
    ∷ codes "LBP"
    ∷ codes "LKR"
    ∷ codes "LRD"
    ∷ codes "LSL"
    ∷ codes "LYD"
    ∷ codes "MAD"
    ∷ codes "MDL"
    ∷ codes "MGA"
    ∷ codes "MKD"
    ∷ codes "MMK"
    ∷ codes "MNT"
    ∷ codes "MOP"
    ∷ codes "MRU"
    ∷ codes "MUR"
    ∷ codes "MVR"
    ∷ codes "MWK"
    ∷ codes "MXN"
    ∷ codes "MXV"
    ∷ codes "MYR"
    ∷ codes "MZN"
    ∷ codes "NAD"
    ∷ codes "NGN"
    ∷ codes "NIO"
    ∷ codes "NOK"
    ∷ codes "NPR"
    ∷ codes "NZD"
    ∷ codes "OMR"
    ∷ codes "PAB"
    ∷ codes "PEN"
    ∷ codes "PGK"
    ∷ codes "PHP"
    ∷ codes "PKR"
    ∷ codes "PLN"
    ∷ codes "PYG"
    ∷ codes "QAR"
    ∷ codes "RON"
    ∷ codes "RSD"
    ∷ codes "RUB"
    ∷ codes "RWF"
    ∷ codes "SAR"
    ∷ codes "SBD"
    ∷ codes "SCR"
    ∷ codes "SDG"
    ∷ codes "SEK"
    ∷ codes "SGD"
    ∷ codes "SHP"
    ∷ codes "SLE"
    ∷ codes "SLL"
    ∷ codes "SOS"
    ∷ codes "SRD"
    ∷ codes "SSP"
    ∷ codes "STN"
    ∷ codes "SVC"
    ∷ codes "SYP"
    ∷ codes "SZL"
    ∷ codes "THB"
    ∷ codes "TJS"
    ∷ codes "TMT"
    ∷ codes "TND"
    ∷ codes "TOP"
    ∷ codes "TRY"
    ∷ codes "TTD"
    ∷ codes "TWD"
    ∷ codes "TZS"
    ∷ codes "UAH"
    ∷ codes "UGX"
    ∷ codes "USD"
    ∷ codes "USN"
    ∷ codes "UYI"
    ∷ codes "UYU"
    ∷ codes "UYW"
    ∷ codes "UZS"
    ∷ codes "VED"
    ∷ codes "VES"
    ∷ codes "VND"
    ∷ codes "VUV"
    ∷ codes "WST"
    ∷ codes "XAF"
    ∷ codes "XAG"
    ∷ codes "XAU"
    ∷ codes "XBA"
    ∷ codes "XBB"
    ∷ codes "XBC"
    ∷ codes "XBD"
    ∷ codes "XCD"
    ∷ codes "XDR"
    ∷ codes "XOF"
    ∷ codes "XPD"
    ∷ codes "XPF"
    ∷ codes "XPT"
    ∷ codes "XSU"
    ∷ codes "XTS"
    ∷ codes "XUA"
    ∷ codes "XXX"
    ∷ codes "YER"
    ∷ codes "ZAR"
    ∷ codes "ZMW"
    ∷ codes "ZWG"
    ∷ []

unfoldable pub is_iso_4217 : Text → Bool
is_iso_4217 code = any (eq_text code) iso_4217_codes

-- `normalize_currency_code`, or nothing for its `ValueError`
unfoldable pub normalize_currency_code : (Text → Text) → Text → Option Text
unfolding is_iso_4217
normalize_currency_code upper value =
    let normalized = upper (strip value) in if is_iso_4217 normalized then some normalized else none

-- A `Decimal`: `units` over a power of ten, `places` being minus its exponent (a positive exponent is
-- multiplied out), or infinity and the values that are not numbers.
pub data Decimal : Type 0 where
  finite : (units : ℤ) (places : ℕ) → Decimal
  special : Decimal

-- `_MAX_AMOUNT` in ten-thousandths
abbrev pub max_amount : ℕ
max_amount = 9_999_999_999_999_999_999

-- the tests of `Money.__post_init__` on the amount: the text of the `ValueError`, if one is raised
unfoldable pub amount_error : Decimal → Option String
amount_error Decimal.special = some "money amount must be finite, non-negative, and supported"
amount_error (Decimal.finite (negsuc n) places) =
    some "money amount must be finite, non-negative, and supported"
amount_error (Decimal.finite (pos n) places) =
    if ltb (max_amount * 10 ^ places) (n * 10_000)
    then some "money amount must be finite, non-negative, and supported"
    else if ltb 4 places
    then some "money amount cannot exceed four decimal places"
    else none

-- `Money.__post_init__`
unfoldable pub money_error : (Text → Text) → Decimal → Text → Option String
unfolding amount_error normalize_currency_code
money_error upper amount currency_code =
    after_currency (normalize_currency_code upper currency_code)
  where
    after_currency : Option Text → Option String
    after_currency none = some "currency_code must be an active ISO-4217 code"
    after_currency (some normalized) = amount_error amount

-- An amount that `Money` admits, as the column holds it; other amounts never reach a column.
unfoldable pub ten_thousandths : Decimal → ℕ
ten_thousandths Decimal.special = 0
ten_thousandths (Decimal.finite (negsuc n) places) = 0
ten_thousandths (Decimal.finite (pos n) places) = n * 10 ^ (4 - places)

-- a column's amount, as a `Decimal`
abbrev pub stored : ℕ → Decimal
stored amount = Decimal.finite (pos amount) 4
