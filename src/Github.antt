-- ===== src/Github.antt =====
-- GitHub: the errors, the token and the calls of its API (crates/mc-github/src/lib.rs, token.rs).
pub mod Command
pub mod Git
pub mod Proxy
pub mod Status
use Prim.Native.String.{len}
use mobile_coder.Prelude.{
  ℕ, ◌<>◌, String, Bool, not, ◌||◌, Option, none, some, List, [], ◌∷◌, eqb, leb, ltb, ◌&&◌,
  if◌then◌else◌, ◌>>=◌, unwrap_or,
}
use mobile_coder.Prelude.Text.{take_chars, split, trim, is_empty, show}
use mobile_coder.Prelude.Text.Affix.{trim_end_char}
use mobile_coder.Json.{Json}
use mobile_coder.Sandbox.{Ran, ok, err}

abbrev pub api_root : String
api_root = "https://api.github.com"

abbrev pub git_root : String
git_root = "https://github.com"

abbrev pub user_agent : String
user_agent = "mobile-coder"

pub data GithubError : Type 0 where
  http : String → GithubError
  unauthorized : String → GithubError
  api : (status : ℕ) (message : String) → GithubError
  other : String → GithubError

pub data Done (A : Type 0) : Type 0 where
  fine : A → Done A
  failed : GithubError → Done A

pub record Viewer : Type 0 where
  pub login : String
  pub name : Option String

pub record Repo : Type 0 where
  pub full_name : String
  pub private : Bool
  pub clone_url : String
  pub default_branch : String
  pub updated_at : String

-- The last of the parts of a text.
abbrev pub last_part : String → List String → String
last_part d [] = d
last_part d (p ∷ ps) = last_part p ps

unfoldable pub short_name : Repo → String
short_name repo = last_part repo.full_name (split b'/' repo.full_name)

pub record Token : Type 0 where
  pub as_str : String

unfoldable pub redacted : Token → String
redacted token = take_chars 8 token.as_str <> "… " <> show (len token.as_str) <> " chars"

-- The slot of the process (`set`, `get`, `is_set` and `clear` of token.rs) is an Option; a poisoned
-- lock is not modelled.
unfoldable pub from_env : Option String → Option Token
from_env none = none
from_env (some value) =
    if is_empty (trim value) then none else some (record { as_str = trim value })

-- A request to the API, as it is handed to the client.
pub record Request (V : Type 0) : Type 0 where
  pub method : String
  pub url : String
  pub headers : List (String × String)
  pub body : Option V

pub record Api : Type 0 where
  pub token : String
  pub root : String

unfoldable pub new : String → Api
new token = record { token = token; root = api_root }

unfoldable pub with_api_root : String → Api → Api
with_api_root root a = record a { root = trim_end_char b'/' root }

unfoldable pub request : {V : Type 0} → Api → String → String → Option V → Request V
request a method path body = record {
  method = method;
  url = a.root <> path;
  headers =
      ("authorization", "Bearer " <> a.token)
      ∷ ("accept", "application/vnd.github+json")
      ∷ ("x-github-api-version", "2022-11-28")
      ∷ ("user-agent", user_agent)
      ∷ [];
  body = body;
}

-- What the client gives for a request: its error, or a status and the text of the body.
pub data Answer : Type 0 where
  unsent : String → Answer
  answered : (status : ℕ) (body : String) → Answer

module _ (J : Json) where
  abbrev message_of : String → Option J.Value → String
  message_of body none = take_chars 200 body
  message_of body (some v) = unwrap_or (take_chars 200 body) (J.get v "message" >>= J.as_str)

  -- `from_str::<T>`, whose error is a text: `read` is what serde derives for the type.
  abbrev parsed : {T : Type 0} → Ran T → Done T
  parsed (ok t) = fine t
  parsed (err e) = failed (other ("GitHub sent something unexpected: " <> e))

  unfoldable pub decode : {T : Type 0} → (String → Ran T) → ℕ → String → Done T
  decode read status body =
      if leb 200 status && ltb status 300
      then parsed (read body)
      else if eqb status 401 || eqb status 403
      then failed (unauthorized (message_of body (J.parse body)))
      else failed (api status (message_of body (J.parse body)))

  unfoldable pub get : {T : Type 0} → (String → Ran T) → Answer → Done T
  unfolding decode
  get read (unsent e) = failed (http e)
  get read (answered status body) = decode read status body

  unfoldable pub viewer : Api → Request J.Value
  viewer a = request a "GET" "/user" none

  unfoldable pub repos : Api → Request J.Value
  repos a =
      request a "GET"
        "/user/repos?per_page=50&sort=updated&affiliation=owner,collaborator,organization_member"
        none

  unfoldable pub create_repo : String → Bool → Bool → Api → Request J.Value
  create_repo name private auto_init a = request a "POST" "/user/repos" (
      some (
        J.object (
          ("name", J.string name)
          ∷ ("private", J.boolean private)
          ∷ ("auto_init", J.boolean auto_init)
          ∷ [])))
