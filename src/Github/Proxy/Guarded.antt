-- ===== src/Github/Proxy/Guarded.antt =====
-- Which requests the proxy lets through (`handle` of crates/mc-github/src/proxy.rs).
use text.Mathlib.TextLemmas.{append_assoc as text_assoc}
use mobile_coder.Prelude.{
  ◌≡◌, refl, ap, sym, ◌∙◌, ◌<>◌, String, true, false, ◌⊎◌, inl, inr, Option, none, some, List, [],
  ◌∷◌, ◌==◌, ==_refl, ==_iff, Bool-cases, All, All-append, arith,
}
use mobile_coder.Prelude.Text.{is_prefix}
use mobile_coder.Prelude.Text.Replaced.{is_prefix-splits}
use mobile_coder.Prelude.Text.Affix.{strip_prefix}
use mobile_coder.Prelude.Text.Affix.Ends.{strip_prefix-splits}
use mobile_coder.Github.Proxy.{
  State, Request, Forward, Response, Header, refuse, is_skipped, passed_on, forward, auth_of,
  query_of, serves, answer, sent, checked, handle,
}

-- A header that is not one the proxy sets or that belongs to the connection.
abbrev pub IsEndToEnd : Header → Type 0
IsEndToEnd h = ((h.0 == "authorization") ≡ false) × ((h.0 == "host") ≡ false)

not_skipped :
    (name skip : String)
    → ((skip == name) ≡ true → is_skipped name ≡ true)
    → is_skipped name ≡ false
    → (name == skip) ≡ false
not_skipped name skip member free = elim (Bool-cases (name == skip)) [
  | inl same ↦
      let e : skip ≡ name = sym ((==_iff name skip).0 same) in cc (member (rw e (==_refl name)))
  | inr other ↦ other
]

passed_on-All : (headers : List Header) → All IsEndToEnd (passed_on headers)
unfolding passed_on
passed_on-All [] = tt
passed_on-All (h ∷ hs) = elim (Bool-cases (is_skipped h.0)) [
  | inl skip ↦ rw skip (passed_on-All hs)
  | inr free ↦ rw free (
    (
      not_skipped h.0 "authorization" (λ m. ground (arith, m)) free,
      not_skipped h.0 "host" (λ m. ground (arith, m)) free,
    ),
    passed_on-All hs,
  )
]

-- The name of the repository, with the ending of git or without it, a slash, and a rest.
abbrev pub IsInRepo : String → String → Type 0
IsInRepo repo path =
    ((rest : String) × (path ≡ repo <> ".git/" <> rest))
    ⊎ ((rest : String) × (path ≡ repo <> "/" <> rest))

-- What is sent for a request that is let through, and what the request asked for.
abbrev pub IsAllowed : State → Request → Forward → Type 0
IsAllowed state request f =
    (rest : String) × (request.path ≡ "/" <> state.secret <> "/" <> rest)
    × IsInRepo state.repo rest
    × (f.url ≡ state.upstream <> "/" <> rest <> query_of request.query)
    × All IsEndToEnd f.headers
    × (f.basic_auth ≡ auth_of state.token)

serves-IsInRepo :
    (state : State) (rest : String) → serves state rest ≡ true → IsInRepo state.repo rest
serves-IsInRepo state rest h = elim (Bool-cases (is_prefix (state.repo <> ".git/") rest)) [
  | inl git ↦
      let name = state.repo <> ".git/" in
      inl (_, is_prefix-splits name rest git ∙ text_assoc state.repo ".git/" _)
  | inr other ↦
      let name = state.repo <> "/" in
      let plain : is_prefix name rest ≡ true = rw (← h, other) refl in
      inr (_, is_prefix-splits name rest plain ∙ text_assoc state.repo "/" _)
]

abbrev pub IsRefusal : Response → Type 0
IsRefusal r = (r ≡ refuse 404 "no") ⊎ (r ≡ refuse 403 "this proxy serves one repository")

forward-IsAllowed :
    (state : State) (request : Request) (rest : String)
    → strip_prefix ("/" <> state.secret <> "/") request.path ≡ some rest
    → serves state rest ≡ true
    → IsAllowed state request (forward state request rest)
unfolding forward
forward-IsAllowed state request rest e ok = (
  rest,
  strip_prefix-splits ("/" <> state.secret <> "/") request.path rest e
      ∙ text_assoc "/" (state.secret <> "/") rest
      ∙ ap (λ t. "/" <> t) (text_assoc state.secret "/" rest),
  serves-IsInRepo state rest ok,
  refl,
  All-append IsEndToEnd (passed_on request.headers) _ (passed_on-All request.headers)
      ((agent_header, agent_host), tt),
  refl,
)
  where
    agent_header : ("user-agent" == "authorization") ≡ false
    agent_header = unfold ◌==◌ in refl

    agent_host : ("user-agent" == "host") ≡ false
    agent_host = unfold ◌==◌ in refl

module _ {W : Type 0} (send : Forward → W → Option Response × W) where
  checked-guarded :
      (state : State) (request : Request) (found : Option String) (w : W)
      → strip_prefix ("/" <> state.secret <> "/") request.path ≡ found
      → ((r : Response) × IsRefusal r × (checked send state request found w ≡ (r, w)))
        ⊎ ((f : Forward) × IsAllowed state request f
            × (checked send state request found w ≡ (answer (send f w).0, (send f w).1)))
  unfolding checked sent
  checked-guarded state request none w e = inl (refuse 404 "no", inl refl, refl)
  checked-guarded state request (some rest) w e = elim (Bool-cases (serves state rest)) [
    | inl ok ↦
        rw ok (inr (forward state request rest, forward-IsAllowed state request rest e ok, refl))
    | inr refused ↦ rw refused (inl (refuse 403 "this proxy serves one repository", inr refl, refl))
  ]

  -- The proxy refuses a request and sends nothing, or the path of the request is the secret and
  -- then a rest that begins with the name of the repository, with `.git` or without, and a slash,
  -- and what is sent has as its address the upstream, a slash, that rest as it stands, and the
  -- query, has no authorization or host header of the request, and is authorized by the token of
  -- the proxy alone.
  pub handle-guarded :
      (state : State) (request : Request) (w : W)
      → ((r : Response) × IsRefusal r × (handle send state request w ≡ (r, w)))
        ⊎ ((f : Forward) × IsAllowed state request f
            × (handle send state request w ≡ (answer (send f w).0, (send f w).1)))
  unfolding handle
  handle-guarded state request w = checked-guarded state request _ w refl
