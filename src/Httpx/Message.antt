-- ===== src/Httpx/Message.antt =====
-- internal/httpx: requests, responses and handlers. `Header.Get`, `URL.Query().Get` and `PathValue`
-- are functions that answer "" where there is nothing. A handler answers always, so the response
-- is what a `Fallible` of it returns.
use insider_one.Prelude.{ℕ, String, List}
use insider_one.Httpx.Context.{Context}
use insider_one.Runtime.{Fallible}

pub record Request : Type 0 where
  pub method : String
  pub path : String
  pub header : String → String
  pub query : String → String
  pub path_value : String → String
  pub body : String

-- What is written as JSON: a map with an error and its code, or a value of another type.
pub data Payload (B : Type 0) : Type 0 where
  error_map : (error code : String) → Payload B
  encoded : B → Payload B

pub record Response (B : Type 0) : Type 0 where
  pub status : ℕ
  pub headers : List (String × String)
  pub payload : Payload B

abbrev pub Handler : Type 0 → Type 0
Handler B = Context → Request → Fallible (Response B)
