-- ===== src/Commerce/Gateway.antt =====
-- The GoPay side of src/lib/commerce/payment.ts: the configuration, the answers of the gateway, and
-- the check of its redirect addresses. `URL` is a parameter that parses; requests are parameters of
-- the functions that make them.
use spottex_test.Common.{
  ℕ, Bool, true, false, ◌&&◌, ◌||◌, Option, none, some, List, [], ◌∷◌, ◌==◌, if◌then◌else◌,
}
use spottex_test.Commerce.Model.{ProviderId, gopay_id, ProviderState, Payment}
use spottex_test.Commerce.Store.{Store, provider_id_eq}
use spottex_test.Commerce.Entitlement.{Directory}
use spottex_test.Energy.Deactivation.{Deactivate}

-- `new URL(value)`: the protocol is `https:`, the host's character codes, and the text.
pub record Url : Type 0 where
  pub is_https : Bool
  pub host : List ℕ
  pub text : ℕ

-- The environment that the commerce code reads.
pub record Config : Type 0 where
  pub directory : Directory
  pub deactivate : Deactivate
  pub year_of : ℕ → ℕ
  pub go_id : ℕ
  pub parse_url : ℕ → Option Url
  pub api_host : List ℕ

-- The answer to `GET /payments/payment/<id>`.
pub record GopayAnswer : Type 0 where
  pub http_ok : Bool
  pub state : Option ProviderState
  pub id : Option ℕ
  pub amount : Option ℕ
  pub currency : Option ℕ
  pub order_number : Option ℕ
  pub goid : Option ℕ
  pub gateway_url : Option ℕ

-- A request, and the store when its answer comes: other transactions commit meanwhile. `none` is a
-- failed token request or connection.
abbrev pub AskStatus : Type 0
AskStatus = ProviderId → Store → Option GopayAnswer × Store

unfoldable pub codes_eq : List ℕ → List ℕ → Bool
codes_eq [] [] = true
codes_eq (a ∷ xs) (b ∷ ys) = a == b && codes_eq xs ys
codes_eq _ _ = false

-- `host.endsWith(suffix)`.
unfoldable pub ends_with : List ℕ → List ℕ → Bool
unfolding codes_eq
ends_with suffix [] = codes_eq suffix []
ends_with suffix (c ∷ cs) = codes_eq suffix (c ∷ cs) || ends_with suffix cs

abbrev dot_gopay_com : List ℕ
dot_gopay_com = b'.' ∷ b'g' ∷ b'o' ∷ b'p' ∷ b'a' ∷ b'y' ∷ b'.' ∷ b'c' ∷ b'o' ∷ b'm' ∷ []

abbrev dot_gopay_cz : List ℕ
dot_gopay_cz = b'.' ∷ b'g' ∷ b'o' ∷ b'p' ∷ b'a' ∷ b'y' ∷ b'.' ∷ b'c' ∷ b'z' ∷ []

unfoldable pub trusted_host : List ℕ → List ℕ → Bool
unfolding ends_with codes_eq
trusted_host api host =
    codes_eq host api || ends_with dot_gopay_com host || ends_with dot_gopay_cz host

-- safeGopayGatewayUrl.
unfoldable pub safe_gateway_url : Config → Option ℕ → Option ℕ
unfolding trusted_host
safe_gateway_url cfg none = none
safe_gateway_url cfg (some value) = elim (cfg.parse_url value) [
  | none ↦ none
  | some u ↦ if u.is_https && trusted_host cfg.api_host u.host then some u.text else none
]

abbrev is_number : Option ℕ → ℕ → Bool
is_number none n = false
is_number (some m) n = m == n

abbrev pub answers_id : Option ℕ → ProviderId → Bool
answers_id none i = false
answers_id (some n) i = provider_id_eq (gopay_id n) i

-- `matches` of reconcileGopay.
unfoldable pub answer_matches : Config → Payment → ProviderId → GopayAnswer → Bool
answer_matches cfg p i a =
    answers_id a.id i
    && is_number a.amount p.amount_minor
    && is_number a.currency p.currency
    && is_number a.order_number p.id
    && is_number a.goid cfg.go_id
