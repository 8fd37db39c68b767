-- ===== src/Protocol/Session.antt =====
-- packages/protocol/src/sessions.ts and the interaction of events.ts
use cucoudle.Protocol.Json.{Json, string, object, end, field}
use cucoudle.Prelude.{ℕ, String, Option, List}

pub data MobilePlatform : Type 0 where
  ios android unknown : MobilePlatform

-- The value of the enumeration.
abbrev pub platform_text : MobilePlatform → String
platform_text MobilePlatform.ios = "ios"
platform_text MobilePlatform.android = "android"
platform_text MobilePlatform.unknown = "unknown"

pub record MobileDevice : Type 0 where
  pub id : String
  pub name : String
  pub platform : MobilePlatform

-- A device as an object.
abbrev pub device_json : MobileDevice → Json
device_json d = object (
    field "id" (string d.id)
      (field "name" (string d.name) (field "platform" (string (platform_text d.platform)) end)))

pub data SessionStatus : Type 0 where
  starting running waiting stopped error : SessionStatus

pub data AgentKind : Type 0 where
  claude codex cursor shell unknown : AgentKind

pub record Session : Type 0 where
  pub id : String
  pub agent : AgentKind
  pub title : String
  pub command : String
  pub argv : List String
  pub cwd : String
  pub status : SessionStatus
  pub created_at : String
  pub last_activity_at : String
  pub exit_code : Option ℕ
