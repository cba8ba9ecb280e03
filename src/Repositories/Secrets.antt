-- ===== src/Repositories/Secrets.antt =====
-- infrastructure/services/secrets.manager.service.ts: the secrets manager that the program binds.
pub mod Gaps
use aspin_partners_bridge.Common.{String, not, ◌&&◌, [], ◌∷◌, if◌then◌else◌, contains, starts_with}
use aspin_partners_bridge.Value.{Value, str, object}
use aspin_partners_bridge.Effects.{Result, ok}

-- The literals of `getSecret`, in the order of the source.
abbrev partner_airtel : Value
partner_airtel = object (
    ("client_id", str "mock_airtel_client_id")
    ∷ ("client_secret", str "mock_airtel_client_secret")
    ∷ ("merchant_id", str "AIRTEL_MONEY_KE")
    ∷ [])

abbrev default_mpesa : Value
default_mpesa = object (
    ("consumerKey", str "default_mpesa_key")
    ∷ ("consumerSecret", str "default_mpesa_secret")
    ∷ ("passKey", str "default_pass_key")
    ∷ ("paybill", str "000000")
    ∷ [])

abbrev default_airtel : Value
default_airtel = object (
    ("client_id", str "default_airtel_client")
    ∷ ("client_secret", str "default_airtel_secret")
    ∷ ("merchant_id", str "DEFAULT_AIRTEL")
    ∷ [])

abbrev fallback : Value
fallback = object (
    ("consumerKey", str "mock_consumer_key")
    ∷ ("consumerSecret", str "mock_consumer_secret")
    ∷ ("passKey", str "mock_pass_key")
    ∷ ("paybill", str "174379")
    ∷ ("callbackUrl", str "https://callback.url")
    ∷ [])

unfoldable pub mock_secret : String → Value
mock_secret id =
    if contains id "airtel" && not (starts_with id "default_")
    then partner_airtel
    else if starts_with id "default_" && contains id "mpesa"
    then default_mpesa
    else if starts_with id "default_" && contains id "airtel"
    then default_airtel
    else fallback

unfoldable pub get_secret : String → Result Value
get_secret id = ok (mock_secret id)
