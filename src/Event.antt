-- ===== src/Event.antt =====
-- crates/mc-core/src/event.rs: what the agent tells the screens.
pub mod Protocol
use mobile_coder.Prelude.{ℕ, String, Bool, List}
use mobile_coder.Session.{SessionId}

pub data Event (V : Type 0) : Type 0 where
  turn_started : (session : SessionId) (prompt : String) → Event V
  text_delta : (session : SessionId) (text : String) → Event V
  thinking_delta : (session : SessionId) (text : String) → Event V
  tool_requested : (session : SessionId) (id name : String) (input : V) → Event V
  tool_completed : (session : SessionId) (id : String) (is_error : Bool) (output : String) → Event V
  pty_output : (session : SessionId) (bytes : List ℕ) → Event V
  stream_retrying : (session : SessionId) (attempt : ℕ) (reason : String) → Event V
  context_usage : (session : SessionId) (input_tokens output_tokens : ℕ) → Event V
  compacted : (session : SessionId) (dropped : ℕ) → Event V
  session_opened : (session : SessionId) → Event V
  turn_ended : (session : SessionId) (stop_reason : String) → Event V
  failed : (session : SessionId) (message : String) → Event V
