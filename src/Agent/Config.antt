-- ===== src/Agent/Config.antt =====
-- The configuration of the agent (`AgentConfig` of crates/mc-agent/src/lib.rs). The environment is a
-- function from names to values.
use mobile_coder.Prelude.{
  ◌≡◌, refl, ◌<>◌, String, Bool, true, Option, none, some, ◌==◌, if◌then◌else◌, unwrap_or,
}
use mobile_coder.Prelude.Text.{trim, is_empty, is_prefix}
use mobile_coder.Prelude.Text.Affix.{strip_suffix, without, trim_end_char, parse_u32}
use mobile_coder.Sandbox.{Ran, ok, err}
use mobile_coder.Agent.{AgentConfig}

abbrev pub api_url : String
api_url = "https://api.anthropic.com/v1/messages"

abbrev pub default_model : String
default_model = "claude-opus-5"

abbrev pub default_system_prompt : String
default_system_prompt =
    "You are the coding agent inside mobile-coder, a development environment that runs entirely on an Android phone. Your tools execute in a Linux sandbox on the device.\n\nThe device is battery-powered and thermally limited. Prefer incremental builds over clean rebuilds, and avoid gratuitously long-running commands.\n\nUse `edit_file` rather than rewriting whole files, so changes stay reviewable on a small screen."

unfoldable pub new : String → AgentConfig
new api_key = record {
  api_key = api_key;
  base_url = api_url;
  model = default_model;
  max_tokens = 64000;
  effort = "high";
  show_thinking = true;
  system = default_system_prompt;
  compact_at_tokens = 100000;
  keep_recent_turns = 8;
}

-- A server root, or a URL that goes further, as the URL of the Messages endpoint.
unfoldable pub messages_url : String → String
messages_url base =
    let root = trim_end_char b'/' (trim base) in
    let root = without root (strip_suffix "/v1/messages" root) in
    without root (strip_suffix "/v1" root) <> "/v1/messages"

unfoldable pub is_anthropic : AgentConfig → Bool
is_anthropic config = is_prefix "https://api.anthropic.com" config.base_url

abbrev pub full_value : Option String → Option String
full_value none = none
full_value (some v) = if is_empty (trim v) then none else some v

abbrev pub key_for : Option String → Option String → Ran String
key_for (some key) base = ok key
key_for none (some base) = ok "local"
key_for none none =
    err "ANTHROPIC_API_KEY is not set (or set ANTHROPIC_BASE_URL for a local server)"

abbrev pub with_base : Option String → AgentConfig → AgentConfig
with_base none c = c
with_base (some base) c = record c { base_url = messages_url base }

abbrev pub with_model : Option String → AgentConfig → AgentConfig
with_model none c = c
with_model (some model) c = record c { model = model }

abbrev pub with_limit : Option String → AgentConfig → AgentConfig
with_limit none c = c
with_limit (some v) c = record c {
  compact_at_tokens = unwrap_or c.compact_at_tokens (parse_u32 (trim v));
}

abbrev pub configured : (String → Option String) → Ran String → Ran AgentConfig
configured env (err e) = err e
configured env (ok key) = ok (
    with_limit (env "MC_COMPACT_AT_TOKENS") (
      with_model (full_value (env "ANTHROPIC_MODEL"))
        (with_base (full_value (env "ANTHROPIC_BASE_URL")) (new key))))

unfoldable pub from_env : (String → Option String) → Ran AgentConfig
from_env env =
    configured env
      (key_for (full_value (env "ANTHROPIC_API_KEY")) (full_value (env "ANTHROPIC_BASE_URL")))

messages_url_test : messages_url " http://localhost:1234/v1/ " ≡ "http://localhost:1234/v1/messages"
unfolding messages_url strip_suffix trim_end_char trim ◌==◌
messages_url_test = refl
