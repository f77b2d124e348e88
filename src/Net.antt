-- ===== src/Net.antt =====
-- What the crates use of `reqwest`, which is not in the repository, on a world shared with the other
-- effects.
use custodly.Prelude.{ℕ, Bool, List, Option, Result}
use custodly.Text.{Text}

pub data Method : Type 0 where
  get post : Method

-- A request with bearer authentication. The JSON form of a body is left to the client.
pub record Request (Body : Type 0) : Type 0 where
  pub method : Method
  pub url : Text
  pub bearer : Text
  pub headers : List (Text × Text)
  pub body : Option Body

pub record Net (World : Type 0) : Type 1 where
  pub RequestError : Type 0
  pub Response : Type 0
  pub send : {Body : Type 0} → Request Body → World → Result RequestError Response × World
  pub is_success : Response → Bool
  pub status : Response → ℕ
  -- Reads the whole body as text.
  pub text : Response → World → Result RequestError Text × World
