-- ===== src/Amqp/RpcErrors.antt =====
-- The `RpcError` type of internal/amqp/rpc.go, and Go's errors as far as the gateway looks into
-- them.
use whatsmeow_gateway.Base.{String, ◌<>◌, Option, none, some, Bool, false, ℕ}

pub data RpcCode : Type 0 where
  invalid_request not_found unavailable bad_gateway locked forbidden gone internal : RpcCode

abbrev pub code_text : RpcCode → String
code_text invalid_request = "invalid_request"
code_text not_found = "not_found"
code_text unavailable = "unavailable"
code_text bad_gateway = "bad_gateway"
code_text locked = "locked"
code_text forbidden = "forbidden"
code_text gone = "gone"
code_text internal = "internal"

pub record RpcError : Type 0 where
  pub code : RpcCode
  pub message : String

-- `(*RpcError).Error`.
abbrev pub error_text : RpcError → String
error_text e = code_text e.code <> (": " <> e.message)

-- What `errors.As` and `errors.Is` find in an error's chain; an error may wrap several at once.
pub record GoError : Type 0 where
  pub text : String
  pub rpc : Option RpcError
  pub iq_code : Option ℕ
  pub invalid_image_format : Bool
  pub iq_timed_out : Bool
  pub not_connected : Bool
  pub not_logged_in : Bool
  pub deadline_exceeded : Bool
  pub canceled : Bool
  pub disconnected : Bool
  pub socket_closed : Bool
  pub group_not_found : Bool
  pub not_in_group : Bool
  pub invite_link_unauthorized : Bool
  pub no_session : Bool

abbrev pub plain_error : String → GoError
plain_error text = record {
  text = text;
  rpc = none;
  iq_code = none;
  invalid_image_format = false;
  iq_timed_out = false;
  not_connected = false;
  not_logged_in = false;
  deadline_exceeded = false;
  canceled = false;
  disconnected = false;
  socket_closed = false;
  group_not_found = false;
  not_in_group = false;
  invite_link_unauthorized = false;
  no_session = false;
}

-- An `*RpcError` as an error, by any of the constructors `RpcNotFound`, `RpcUnavailable`, ….
abbrev pub rpc_error : RpcCode → String → GoError
rpc_error code message =
    let e : RpcError = record { code = code; message = message } in
    record (plain_error (error_text e)) { rpc = some e }
