-- ===== src/Github/Proxy.antt =====
-- The loopback proxy that adds the token (crates/mc-github/src/proxy.rs). The HTTP client and the
-- bodies, which are streamed, are parameters of the model; headers have lower-case names.
pub mod Guarded
use mobile_coder.Prelude.{
  ℕ, ◌<>◌, String, Bool, not, ◌||◌, Option, none, some, List, [], ◌∷◌, ◌++◌, ◌==◌, if◌then◌else◌,
  keep, any,
}
use mobile_coder.Prelude.Text.{is_prefix, show}
use mobile_coder.Prelude.Text.Affix.{strip_prefix, trim_start_char, trim_end_char, trim_end_matches}
use mobile_coder.Github.{Token, user_agent}

abbrev pub Header : Type 0
Header = String × String

abbrev pub skipped : List String
skipped =
    "host" ∷ "authorization" ∷ "connection" ∷ "transfer-encoding" ∷ "content-length" ∷ "upgrade"
    ∷ []

pub record State : Type 0 where
  pub secret : String
  pub repo : String
  pub token : Option Token
  pub upstream : String

-- The state of a new proxy (`start`), and what it substitutes for the upstream.
unfoldable pub new_state : (repo : String) (token : Option Token) (upstream secret : String) → State
new_state repo token upstream secret = record {
  secret = secret;
  repo = trim_end_matches ".git" (trim_end_char b'/' (trim_start_char b'/' repo));
  token = token;
  upstream = trim_end_char b'/' upstream;
}

unfoldable pub prefix : ℕ → String → String
prefix port secret = "http://127.0.0.1:" <> show port <> "/" <> secret

unfoldable pub rewrite_for : String → String → String
rewrite_for prefix upstream =
    "url." <> prefix <> "/.insteadOf=" <> trim_end_char b'/' upstream <> "/"

-- A body, which the proxy passes on as it comes, is a text.
pub record Request : Type 0 where
  pub method : String
  pub path : String
  pub query : Option String
  pub headers : List Header
  pub body : String

-- What goes upstream: `basic_auth` is a user and a password.
pub record Forward : Type 0 where
  pub method : String
  pub url : String
  pub headers : List Header
  pub basic_auth : Option (String × String)
  pub body : String

pub record Response : Type 0 where
  pub status : ℕ
  pub headers : List Header
  pub body : String

unfoldable pub refuse : ℕ → String → Response
refuse status reason = record { status = status; headers = []; body = reason }

abbrev pub is_skipped : String → Bool
is_skipped name = any (λ s. s == name) skipped

unfoldable pub passed_on : List Header → List Header
passed_on headers = keep (λ h. not (is_skipped h.0)) headers

abbrev pub query_of : Option String → String
query_of none = ""
query_of (some q) = "?" <> q

abbrev pub auth_of : Option Token → Option (String × String)
auth_of none = none
auth_of (some token) = some ("x-access-token", token.as_str)

unfoldable pub forward : State → Request → String → Forward
forward state request rest = record {
  method = request.method;
  url = state.upstream <> "/" <> rest <> query_of request.query;
  headers = passed_on request.headers ++ ("user-agent", user_agent) ∷ [];
  basic_auth = auth_of state.token;
  body = request.body;
}

abbrev pub serves : State → String → Bool
serves state rest = is_prefix (state.repo <> ".git/") rest || is_prefix (state.repo <> "/") rest

-- The client's answer, or none where it could not reach the upstream.
unfoldable pub answer : Option Response → Response
answer none = refuse 502 "could not reach GitHub"
answer (some response) = record response { headers = passed_on response.headers }

module _ {W : Type 0} (send : Forward → W → Option Response × W) where
  pub sent : State → Request → String → W → Response × W
  sent state request rest w =
      let (response, w') = send (forward state request rest) w in (answer response, w')

  pub checked : State → Request → Option String → W → Response × W
  unfolding sent
  checked state request none w = (refuse 404 "no", w)
  checked state request (some rest) w =
      if serves state rest
      then sent state request rest w
      else (refuse 403 "this proxy serves one repository", w)

  unfoldable pub handle : State → Request → W → Response × W
  unfolding checked
  handle state request w =
      checked state request (strip_prefix ("/" <> state.secret <> "/") request.path) w
