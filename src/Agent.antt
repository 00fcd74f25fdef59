-- ===== src/Agent.antt =====
-- crates/mc-agent/src/lib.rs: the configuration, the errors and the outside of the agent, and the
-- loop of a turn over them. Events are returned in the order in which they are emitted.
pub mod Config
pub mod Summary
pub mod Stream
pub mod Turn
use mobile_coder.Prelude.{ℕ, ◌<>◌, String, Bool, Option, none, some, List}
use mobile_coder.Prelude.Text.{show}
use mobile_coder.Json.{Json}
use mobile_coder.Sandbox.{Sandbox}

-- What the code asks of a `reqwest::Error`.
pub record HttpError : Type 0 where
  pub is_connect : Bool
  pub is_request : Bool
  pub is_timeout : Bool
  pub text : String

pub data AgentError : Type 0 where
  http : HttpError → AgentError
  api : (status : ℕ) (body : String) → AgentError
  decode : String → AgentError
  truncated : String → AgentError
  stream_error : String → AgentError
  refused : Option String → AgentError
  runaway : AgentError
  cancelled : AgentError

abbrev category_text : Option String → String
category_text none = ""
category_text (some c) = " (" <> c <> ")"

-- The messages of the `error` attributes.
unfoldable pub error_text : AgentError → String
error_text (http e) = "http transport failed: " <> e.text
error_text (api status body) = "api returned " <> show status <> ": " <> body
error_text (decode e) = "malformed event from the api: " <> e
error_text (truncated e) = "stream ended before the message finished: " <> e
error_text (stream_error e) = "server error mid-stream: " <> e
error_text (refused category) = "the model declined this request" <> category_text category
error_text runaway = "tool loop exceeded 64 rounds without settling"
error_text cancelled = "stopped"

pub data Res (A : Type 0) : Type 0 where
  ok : A → Res A
  err : AgentError → Res A

pub record AgentConfig : Type 0 where
  pub api_key : String
  pub base_url : String
  pub model : String
  pub max_tokens : ℕ
  pub effort : String
  pub show_thinking : Bool
  pub system : String
  pub compact_at_tokens : ℕ
  pub keep_recent_turns : ℕ

-- What comes of a stream: a frame's data, a failure of the transport, or the stop that the user
-- pressed while the turn waited for the next frame.
pub data SseItem : Type 0 where
  frame : String → SseItem
  broken : String → SseItem
  interrupted : SseItem

pub data Response : Type 0 where
  unsent : HttpError → Response
  answered : (status : ℕ) (body : String) → List SseItem → Response
  interrupted : Response

-- The reply to a request that is not streamed, its body as a text.
pub data Reply : Type 0 where
  unsent : HttpError → Reply
  answered : (status : ℕ) (body : String) → Reply

-- The outside: the sandbox with its world, the server of the model, and the clock.
pub record Host (J : Json) : Type 1 where
  pub sandbox : Sandbox
  pub send : J.Value → sandbox.World → Response × sandbox.World
  pub ask : J.Value → sandbox.World → Reply × sandbox.World
  -- milliseconds
  pub sleep : ℕ → sandbox.World → sandbox.World
