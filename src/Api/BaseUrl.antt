-- ===== src/Api/BaseUrl.antt =====
-- The base addresses of the services. `new URL(url).hostname` is the argument `hostname_of`, `none`
-- where the constructor throws; the environment and the page's location are records.
use influence_platform.Prelude.{
  ◌≡◌, Bool, false, ◌&&◌, ◌||◌, not, [], ◌++◌, Option, none, some, if◌then◌else◌, or_else, arith,
}
use influence_platform.Js.Text.{Text, codes, ◌===◌, truthy, trim}

pub record Environment : Type 0 where
  pub public_distribution_url : Option Text
  pub internal_distribution_url : Option Text
  pub public_content_url : Option Text
  pub internal_content_url : Option Text

-- `window.location`; on a server there is no window.
pub record Location : Type 0 where
  pub protocol : Text
  pub hostname : Text

-- `(value || "").trim()`
abbrev pub trimmed : Option Text → Text
trimmed value = trim (or_else value [])

unfoldable pub is_docker_host : Text → Bool
is_docker_host h =
    h === codes "distribution-engine"
    || h === codes "content-factory"
    || h === codes "emulator-controller"

module _ (hostname_of : Text → Option Text) where
  unfoldable pub is_docker_internal_api_url : Text → Bool
  is_docker_internal_api_url url = elim (hostname_of url) [
    | none ↦ false
    | some h ↦ is_docker_host h
  ]

  -- The rule that both services share: a public address unless it is internal; then the page's own
  -- host with a port, or, on a server, the internal address first and a default last.
  unfoldable pub resolve_base_url : Option Location → Option Text → Option Text → Text → Text → Text
  resolve_base_url (some location) public internal port default =
      let from_env = trimmed public in
      if truthy from_env && not (is_docker_internal_api_url from_env)
      then from_env
      else location.protocol ++ codes "//" ++ location.hostname ++ codes ":" ++ port
  resolve_base_url none public internal port default =
      let pub_url = trimmed public in
      if truthy (trimmed internal)
      then trimmed internal
      else if truthy pub_url && not (is_docker_internal_api_url pub_url)
      then pub_url
      else default

  unfoldable pub resolve_distribution_base_url : Option Location → Environment → Text
  unfolding resolve_base_url
  resolve_distribution_base_url window env =
      resolve_base_url window env.public_distribution_url env.internal_distribution_url
        (codes "3001") (codes "http://distribution-engine:3001")

  unfoldable pub resolve_content_base_url : Option Location → Environment → Text
  unfolding resolve_base_url
  resolve_content_base_url window env =
      resolve_base_url window env.public_content_url env.internal_content_url (codes "8000")
        (codes "http://content-factory:8000")

  unfoldable pub get_client_content_api_url : Option Location → Environment → Text
  get_client_content_api_url none env =
      let url = trimmed env.public_content_url in
      if truthy url then url else codes "http://localhost:8000"
  get_client_content_api_url (some location) env = resolve_content_base_url (some location) env

  -- The platform reads the host back from `protocol//hostname:port`.
  abbrev pub ReadsHost : Location → Text → Type 0
  ReadsHost location port =
      hostname_of (location.protocol ++ codes "//" ++ location.hostname ++ codes ":" ++ port)
      ≡ some location.hostname

-- In a browser whose page is not itself served from an internal host, no client is pointed at a
-- host that only resolves inside Docker, whatever the environment says.
browser_never_internal :
    (hostname_of : Text → Option Text) (location : Location) (env : Environment)
    → ReadsHost hostname_of location (codes "3001")
    → ReadsHost hostname_of location (codes "8000")
    → is_docker_host location.hostname ≡ false
    → let internal = is_docker_internal_api_url hostname_of in
      (internal (resolve_distribution_base_url hostname_of (some location) env) ≡ false)
      × (internal (resolve_content_base_url hostname_of (some location) env) ≡ false)
      × (internal (get_client_content_api_url hostname_of (some location) env) ≡ false)
unfolding is_docker_internal_api_url resolve_distribution_base_url resolve_content_base_url
    get_client_content_api_url
browser_never_internal hostname_of location env h k l = ground arith
