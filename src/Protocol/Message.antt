-- ===== src/Protocol/Message.antt =====
-- packages/protocol/src/envelope.ts: error codes and the three kinds of message.
use cucoudle.Prelude.{String, Option, Bool}
use cucoudle.Protocol.Json.{Fields}

pub data ErrorCode : Type 0 where
  invalid_message unsupported_protocol unsupported_method unauthorized : ErrorCode
  pairing_expired pairing_not_found desktop_offline mobile_not_paired : ErrorCode
  session_not_found session_stopped tool_not_found daemon_unavailable : ErrorCode
  pty_write_failed interaction_not_found interaction_stale internal_error : ErrorCode

unfoldable pub error_code_text : ErrorCode → String
error_code_text ErrorCode.invalid_message = "INVALID_MESSAGE"
error_code_text ErrorCode.unsupported_protocol = "UNSUPPORTED_PROTOCOL"
error_code_text ErrorCode.unsupported_method = "UNSUPPORTED_METHOD"
error_code_text ErrorCode.unauthorized = "UNAUTHORIZED"
error_code_text ErrorCode.pairing_expired = "PAIRING_EXPIRED"
error_code_text ErrorCode.pairing_not_found = "PAIRING_NOT_FOUND"
error_code_text ErrorCode.desktop_offline = "DESKTOP_OFFLINE"
error_code_text ErrorCode.mobile_not_paired = "MOBILE_NOT_PAIRED"
error_code_text ErrorCode.session_not_found = "SESSION_NOT_FOUND"
error_code_text ErrorCode.session_stopped = "SESSION_STOPPED"
error_code_text ErrorCode.tool_not_found = "TOOL_NOT_FOUND"
error_code_text ErrorCode.daemon_unavailable = "DAEMON_UNAVAILABLE"
error_code_text ErrorCode.pty_write_failed = "PTY_WRITE_FAILED"
error_code_text ErrorCode.interaction_not_found = "INTERACTION_NOT_FOUND"
error_code_text ErrorCode.interaction_stale = "INTERACTION_STALE"
error_code_text ErrorCode.internal_error = "INTERNAL_ERROR"

pub record ProtocolError : Type 0 where
  pub code : ErrorCode
  pub message : String
  pub details : Option Fields

abbrev pub protocol_version : String
protocol_version = "2026-07-11"

pub record RequestMessage : Type 0 where
  pub version : String
  pub id : String
  pub method : String
  pub params : Option Fields
  pub sent_at : String

pub record ResponseMessage : Type 0 where
  pub version : String
  pub id : String
  pub ok : Bool
  pub result : Option Fields
  pub error : Option ProtocolError
  pub sent_at : String

-- The field `content` is the source's `data`.
pub record EventMessage : Type 0 where
  pub version : String
  pub event : String
  pub content : Fields
  pub sent_at : String

pub data WireMessage : Type 0 where
  request : RequestMessage → WireMessage
  response : ResponseMessage → WireMessage
  event : EventMessage → WireMessage
