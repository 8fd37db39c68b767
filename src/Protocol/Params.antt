-- ===== src/Protocol/Params.antt =====
-- The parameters of the relay's own methods (packages/protocol/src/methods.ts), and what the
-- programs ask of the schema library: `safeParse` at each schema that they use.
use cucoudle.Prelude.{ℕ, String, Option, List}
use cucoudle.Protocol.Json.{Json, Fields}
use cucoudle.Protocol.Session.{MobileDevice}
use cucoudle.Protocol.Message.{WireMessage}

pub record DesktopRegisterParams : Type 0 where
  pub desktop_id : String
  pub desktop_name : String
  pub platform : String
  pub app_version : String
  pub offered_capabilities : Option (List String)

pub record DesktopPairingCreateParams : Type 0 where
  pub ttl_seconds : ℕ

pub record MobilePairParams : Type 0 where
  pub desktop_id : String
  pub pairing_code : String
  pub mobile_device : MobileDevice
  pub offered_capabilities : Option (List String)

pub record MobileResumeParams : Type 0 where
  pub desktop_id : String
  pub mobile_device_id : String
  pub mobile_session_token : String
  pub offered_capabilities : Option (List String)

pub record QrPayload : Type 0 where
  pub relay_url : String
  pub desktop_id : String
  pub pairing_code : String
  pub expires_at : String

-- The result of `safeParse`; a failure has the text of `error.message`.
pub data Parsed {ℓ} (A : Type ℓ) : Type ℓ where
  success : A → Parsed A
  failure : String → Parsed A

-- `JSON.parse`, `none` where it throws, and zod's `safeParse` at each schema of the relay.
pub record Schemas : Type 0 where
  pub parse_json : String → Option Json
  pub wire_message : Json → Parsed WireMessage
  pub desktop_register : Option Fields → Parsed DesktopRegisterParams
  pub desktop_pairing_create : Option Fields → Parsed DesktopPairingCreateParams
  pub mobile_pair : Option Fields → Parsed MobilePairParams
  pub mobile_resume : Option Fields → Parsed MobileResumeParams
