-- ===== src/Platform/Http.antt =====
-- userver's HTTP requests and responses, as far as the handlers look at them.
use otus_highload_architect.Prelude.{
  String, Option, none, some, List, [], ◌∷◌, if◌then◌else◌, Text, Outcome, ok,
}
use text.Mathlib.Text.{◌==◌ as str_eq}
use otus_highload_architect.Platform.Json.{Json}

pub data HttpStatus : Type 0 where
  status_ok bad_request not_found internal_server_error : HttpStatus

-- `GetPathArg`, `HasArg` and `GetArg`, and the parsed body of a JSON handler.
pub record HttpRequest : Type 0 where
  pub path_arg : Text
  pub args : List (String × Text)
  pub json_body : Json

-- `{}` of a text handler, a text, and the value that a JSON handler returns.
pub data Body (D : Type 0) : Type 0 where
  empty : Body D
  document : D → Body D
  value : Json → Body D

pub record Response (D : Type 0) : Type 0 where
  pub status : HttpStatus
  pub body : Body D

-- A handler that returns without `SetResponseStatus` answers 200.
abbrev pub respond {ℓ} :
    {S : Type ℓ} {D : Type 0} → S → HttpStatus → Body D → S × Outcome (Response D)
respond s status body = (s, ok (record { status = status; body = body }))

abbrev pub find_arg : String → List (String × Text) → Option Text
find_arg k [] = none
find_arg k ((j, v) ∷ r) = if str_eq j k then some v else find_arg k r
