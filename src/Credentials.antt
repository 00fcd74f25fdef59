-- ===== src/Credentials.antt =====
-- The key and the endpoint on the device (apps/android/src/credentials.rs), and what the worker is
-- given for a turn (agent_task.rs). Each static is a field; no lock is ever poisoned.
use Prim.Native.String.{len}
use mobile_coder.Prelude.{
  ◌<>◌, String, Bool, true, false, Option, none, some, if◌then◌else◌, unwrap_or, ◌≡◌, refl,
}
use mobile_coder.Prelude.Text.{show, take_chars, is_empty}
use mobile_coder.Sandbox.{Ran, ok, err}
use mobile_coder.Agent.{AgentConfig}
use mobile_coder.Agent.Config.{new, messages_url}

-- `API_KEY` and `ENDPOINT`
pub record Credentials : Type 0 where
  pub key : Option String
  pub base_url : String
  pub model : String

abbrev pub set_endpoint : String → String → Credentials → Credentials
set_endpoint base_url model c = record c { base_url = base_url; model = model }

abbrev pub set : String → Credentials → Credentials
set key c = record c { key = some key }

abbrev pub clear : Credentials → Credentials
clear c = record c { key = none }

abbrev pub is_set : Credentials → Bool
is_set c = elim c.key [ none ↦ false | some key ↦ true ]

-- The form that is logged.
unfoldable pub redact : String → String
redact key = take_chars 8 key <> "… " <> show (len key) <> " chars"

abbrev pub needs_nothing : Option String → String → Bool
needs_nothing none base_url = is_empty base_url
needs_nothing (some key) base_url = false

abbrev pub with_base_url : String → AgentConfig → AgentConfig
with_base_url base_url config =
    if is_empty base_url then config else record config { base_url = messages_url base_url }

abbrev pub with_model_name : String → AgentConfig → AgentConfig
with_model_name model config = if is_empty model then config else record config { model = model }

-- A key is not needed where there is an endpoint.
unfoldable pub agent_config : Credentials → Option AgentConfig
agent_config c =
    if needs_nothing c.key c.base_url
    then none
    else some (with_model_name c.model (with_base_url c.base_url (new (unwrap_or "local" c.key))))

abbrev pub no_model_text : String
no_model_text =
    "No model is configured. From a computer: apps/android/agent.sh --key sk-ant-... or --endpoint http://<host>:1234 --model <model>."

abbrev pub installing_text : String
installing_text = "The Linux environment is still installing. Try again in a moment."

-- What the worker is given for a turn: the configuration, and the paths of the sandbox.
unfoldable pub turn_setup :
    Option AgentConfig → Option (String × String) → Ran (AgentConfig × (String × String))
turn_setup none paths = err no_model_text
turn_setup (some config) none = err installing_text
turn_setup (some config) (some paths) = ok (config, paths)

-- What is set is what a turn is given: the key, or a word in its place, and the endpoint.
pub agent_config-set :
    (key base_url model : String) (c : Credentials)
    → is_empty model ≡ false
    → is_empty base_url ≡ false
    → agent_config (set key (set_endpoint base_url model c))
      ≡ some (record (new key) { base_url = messages_url base_url; model = model })
unfolding agent_config
agent_config-set key base_url model c m b = rw (m, b) refl

pub agent_config-clear :
    (base_url model : String) (c : Credentials)
    → is_empty base_url ≡ true
    → agent_config (clear (set_endpoint base_url model c)) ≡ none
unfolding agent_config
agent_config-clear base_url model c b = rw b refl
