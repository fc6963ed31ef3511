-- ===== src/Api/Types.antt =====
-- The state, the requests, the responses and the errors of cashu-broker/src/api.rs.
use atomic_mint_swap.Base.{ℕ, String, Option}
use atomic_mint_swap.Error.{BrokerError, insufficient_liquidity, quote_not_found, quote_expired}
use atomic_mint_swap.Effect.{Action, zoom, rethrow}
use atomic_mint_swap.Env.{Env}
use atomic_mint_swap.Broker.{Broker, Brokered}
use atomic_mint_swap.Database.Rows.{Tables, Stored}

pub record QuoteRequest : Type 0 where
  pub source_mint : String
  pub target_mint : String
  pub amount : ℕ
  pub user_pubkey : Option String

pub record AcceptQuoteRequest : Type 0 where
  pub source_proofs : String

pub record AcceptQuoteResponse : Type 0 where
  pub encrypted_signature : String
  pub target_proofs : String

pub record CompleteQuoteRequest : Type 0 where
  pub decrypted_signature : String

pub record CompleteQuoteResponse : Type 0 where
  pub adaptor_secret : String
  pub status : String

pub data ApiError : Type 0 where
  internal : String → ApiError
  bad_request : String → ApiError
  not_found : String → ApiError
  broker : BrokerError → ApiError

-- The text of an error response: a message, or the `Display` of an error.
pub data ErrorText : Type 0 where
  message : String → ErrorText
  display : BrokerError → ErrorText

pub record ErrorResponse : Type 0 where
  pub status : ℕ
  pub code : String
  pub error : ErrorText

abbrev pub response : ℕ → String → ErrorText → ErrorResponse
response status code error = record { status = status; code = code; error = error }

-- The inner `match` of `into_response`.
unfoldable pub broker_response : BrokerError → ErrorResponse
broker_response (quote_not_found msg) = response 404 "QUOTE_NOT_FOUND" (message msg)
broker_response (quote_expired msg) = response 400 "QUOTE_EXPIRED" (message msg)
broker_response (insufficient_liquidity url needed available) =
    response 503 "INSUFFICIENT_LIQUIDITY" (display (insufficient_liquidity url needed available))
broker_response e = response 500 "BROKER_ERROR" (display e)

unfoldable pub into_response : ApiError → ErrorResponse
unfolding broker_response
into_response (internal msg) = response 500 "INTERNAL_ERROR" (message msg)
into_response (bad_request msg) = response 400 "BAD_REQUEST" (message msg)
into_response (not_found msg) = response 404 "NOT_FOUND" (message msg)
into_response (broker e) = broker_response e

module _ (env : Env) where
  pub record AppState : Type 0 where
    pub service : Broker env
    pub db : Tables env

  abbrev pub Handler : Type 0 → Type 0
  Handler A = Action env.World AppState ApiError A

  -- A call of the broker or of the database, with `map_err(ApiError::from)`.
  abbrev pub on_broker : {A : Type 0} → Brokered env A → Handler A
  on_broker m = rethrow broker (zoom (λ s. s.service) (λ s b. record s { service = b }) m)

  abbrev pub on_db : {A : Type 0} → Stored env A → Handler A
  on_db m = rethrow broker (zoom (λ s. s.db) (λ s t. record s { db = t }) m)
