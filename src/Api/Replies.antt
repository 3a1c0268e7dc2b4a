-- ===== src/Api/Replies.antt =====
-- internal/apiserver/network.go: the checks that the resource handlers share, and the responses of
-- writeJSON and writeAPIError. The messages of errors are left out. What mime and encoding/json make
-- of a body is an argument, and so is what mux and the generated code make of a path and a query.
use nephos.Base.{
  ℕ, Bool, true, false, not, List, [], ◌∷◌, Option, none, some, if◌then◌else◌, Str, codes, str_eq,
  any, Result, ok, err,
}
use nephos.Errors.{Code, Error, api, invalid_parameter_value}
use nephos.Store.Tables.{Db}
use nephos.Service.Idempotency.{Reply}

-- the `code` of an error body
pub data ErrorCode : Type 0 where
  service_code : Code → ErrorCode
  invalid_workspace service_unavailable internal_error : ErrorCode

pub record ErrorBody : Type 0 where
  pub code : ErrorCode
  pub resource_id : Str

-- the status and the body of a response
pub data Http (A : Type 0) : Type 0 where
  api_error : ℕ → ErrorBody → Http A
  json : ℕ → A → Http A

-- a response, the database after the request, and the ID that was enqueued
pub record Handled (A : Type 0) : Type 0 where
  pub response : Http A
  pub db : Db
  pub enqueued : Option Str

-- what mime.ParseMediaType makes of the Content-Type, what the first Decode of the body yields,
-- and whether the second one yields io.EOF
pub record Body (A : Type 0) : Type 0 where
  pub media_type : Option Str
  pub value : Option A
  pub at_end : Bool

-- `if params.IdempotencyKey != nil { key = *params.IdempotencyKey }`, also for a page token
abbrev pub or_empty : Option Str → Str
or_empty none = []
or_empty (some s) = s

abbrev pub is_json : Option Str → Bool
is_json none = false
is_json (some media_type) = str_eq media_type (codes "application/json")

unfoldable pub error_status : Error → ℕ
error_status (api e) = e.status
error_status _ = 500

unfoldable pub error_body : Error → ErrorBody
error_body (api e) = record { code = service_code e.code; resource_id = e.resource_id }
error_body _ = record { code = internal_error; resource_id = [] }

module _ {A : Type 0} where
  abbrev pub bad_request : Http A
  bad_request =
      api_error 400 (record { code = service_code invalid_parameter_value; resource_id = [] })

  abbrev pub write_service_error : Error → Http A
  write_service_error e = api_error (error_status e) (error_body e)

  abbrev pub no_workspace : Str → Http A
  no_workspace workspace =
      api_error 404 (record { code = invalid_workspace; resource_id = workspace })

  abbrev pub not_ready : Http A
  not_ready = api_error 503 (record { code = service_unavailable; resource_id = [] })

  -- a response without a call of the service
  abbrev pub unchanged : Db → Http A → Handled A
  unchanged db response = record { response = response; db = db; enqueued = none }

  -- checkWorkspace, then checkResources or checkInstances; `fail` makes of an error response what
  -- the handler yields
  unfoldable pub checked : {R : Type 0} → (Http A → R) → Str → Bool → R → R
  checked fail workspace ready rest =
      if not (str_eq workspace (codes "default"))
      then fail (no_workspace workspace)
      else if not ready
      then fail not_ready
      else rest

-- decodeBody
unfoldable pub decode_body : {A : Type 0} → Body A → Option A
decode_body body =
    if not (is_json body.media_type) then none else if body.at_end then body.value else none

abbrev pub is_blank : Str → Bool
is_blank [] = true
is_blank (c ∷ s) = false

module _ {A B : Type 0} where
  -- the response to a result of the service
  abbrev pub respond : ℕ → (A → B) → Result Error A → Http B
  respond status view (ok a) = json status (view a)
  respond status view (err e) = write_service_error e

  abbrev pub answered : ℕ → (A → B) → Reply A → Handled B
  answered status view r = record {
    response = respond status view r.result;
    db = r.db;
    enqueued = r.enqueued;
  }

  -- required, then the rest of the handler, once the body is decoded
  abbrev pub with_required : (A → List Str) → (A → Handled B) → Db → Option A → Handled B
  with_required fields rest db none = unchanged db bad_request
  with_required fields rest db (some a) =
      if any is_blank (fields a) then unchanged db bad_request else rest a
