-- ===== src/Portforward.antt =====
-- client/portforward_client.py and api/v1/portforward.py: the client of the port forwarding service,
-- which retries where the network fails, and the handlers over it. A `PortForwardClientError` is a
-- value. `Service` holds what the service answers.
pub mod Attempts
pub mod Api
mod Tests
use Prim.Native.String
use skyline_apiserver_extens.Common.{
  ℕ, String, Bool, true, false, ◌||◌, Option, none, some, List, [], ◌∷◌, ◌++◌, ◌==◌, eqb, leb,
  contains, if◌then◌else◌, ◌⊎◌, inl, inr,
}
use skyline_apiserver_extens.Common.Dict.{Dict}
use skyline_apiserver_extens.Common.Int.{pos}
use skyline_apiserver_extens.Runtime.{Exn, http, other, Result, ok, err, Json, null, obj, get_field}
use skyline_apiserver_extens.World.{
  World, Call, portforward, M, ◌>>=◌, ◌>>◌, pure, raise, lift, exchange, sleep, try_except,
}
use skyline_apiserver_extens.Keystone.{Reply}

pub record Request : Type 0 where
  pub method : String
  pub url : String
  pub authorization : Option String
  pub params : Dict String
  pub body : Option Json

-- `PortForwardClientError`
pub record ClientError : Type 0 where
  pub status_code : ℕ
  pub detail : Json

pub record Service : Type 0 where
  -- `_get_base_url()`, `CONF.openstack.portforward_authorization_key`
  pub base_url : String
  pub authorization_key : String
  pub send : World → Request → Result (Reply Json)
  -- the detail of an answer as text
  pub text_of : Json → String

-- what a failed answer says: its "detail", or its text where there is none
unfoldable pub detail_of : Reply Json → (String → Json) → Json
detail_of response as_text = elim response.json [
  | err _ ↦ as_text response.text
  | ok j ↦ elim j [
    | obj fields ↦ elim (get_field "detail" fields) [ none ↦ as_text response.text | some d ↦ d ]
    | _ ↦ as_text response.text
  ]
]

-- `httpx.ConnectError`, and the kinds of `httpx.TimeoutException`
abbrev pub is_network_error : Exn → Bool
is_network_error (http _ _) = false
is_network_error (other name) =
    contains name
      ("ConnectError" ∷ "ConnectTimeout" ∷ "ReadTimeout" ∷ "WriteTimeout" ∷ "PoolTimeout" ∷ [])

-- The waits of `_retry_on_network_error` between its three attempts, in seconds: exponential, from 1.
abbrev pub waits : List ℕ
waits = 1 ∷ 2 ∷ []

-- `retry(…)`; after the last attempt tenacity raises an error of its own
unfoldable pub retrying {ℓ} : {A : Type ℓ} → List ℕ → M A → M A
retrying [] m =
    try_except m (λ e. if is_network_error e then raise (other "RetryError") else raise e)
retrying (t ∷ ts) m =
    try_except m (λ e. if is_network_error e then sleep (pos t) >> retrying ts m else raise e)

-- `if x: params[key] = x`
abbrev pub param : String → Option String → Dict String
param key none = []
param key (some x) = if x == "" then [] else (key, x) ∷ []

module _ (service : Service) where
  -- `_get_headers`
  unfoldable pub authorization : Option String → Option String
  authorization token =
      let key : Option String =
        if service.authorization_key == ""
        then none
        else some (String.◌++◌ "Bearer " service.authorization_key) in
      elim token [ none ↦ key | some t ↦ if t == "" then key else some (String.◌++◌ "Bearer " t) ]

  -- `_handle_response`; an empty answer is null here
  unfoldable pub handle_response : Reply Json → Result (ClientError ⊎ Json)
  unfolding detail_of
  handle_response response =
      if leb 400 response.status_code
      then ok (
          inl (record { status_code = response.status_code; detail = detail_of response Json.str }))
      else if eqb response.status_code 204
      then ok (inr null)
      else elim response.json [ err e ↦ err e | ok j ↦ ok (inr j) ]

  -- one attempt
  unfoldable pub attempt : Request → M (ClientError ⊎ Json)
  attempt r = do
    response ← exchange (λ w. service.send w r) (portforward r.method r.url)
    lift (handle_response response)

  unfoldable pub call :
      String → String → Option String → Dict String → Option Json → M (ClientError ⊎ Json)
  unfolding retrying attempt
  call method path token params body = retrying waits (
      attempt (record {
        method = method;
        url = String.◌++◌ service.base_url path;
        authorization = authorization token;
        params = params;
        body = body;
      }))

  -- the functions of the client
  unfoldable pub create_portforwarding : Json → Option String → M (ClientError ⊎ Json)
  create_portforwarding request token = call "POST" "/portforward" token [] (some request)

  unfoldable pub list_portforwardings :
      Option String
      → Option String
      → Option String
      → Option String
      → Option String
      → M (ClientError ⊎ Json)
  list_portforwardings status_filter floating_ip service_type vm_id token =
      call "GET" "/portforward" token
        (param "status_filter" status_filter
          ++ param "floating_ip" floating_ip
          ++ param "service_type" service_type
          ++ param "vm_id" vm_id)
        none

  unfoldable pub get_portforwardings_by_vm : String → Option String → M (ClientError ⊎ Json)
  get_portforwardings_by_vm vm_id token =
      call "GET" (String.◌++◌ "/portforward/vm/" vm_id) token [] none

  unfoldable pub get_portforwarding : String → Option String → M (ClientError ⊎ Json)
  get_portforwarding rule_id token = call "GET" (String.◌++◌ "/portforward/" rule_id) token [] none

  unfoldable pub update_portforwarding : String → Json → Option String → M (ClientError ⊎ Json)
  update_portforwarding rule_id request token =
      call "PATCH" (String.◌++◌ "/portforward/" rule_id) token [] (some request)

  unfoldable pub delete_portforwarding : String → Option String → M (ClientError ⊎ Json)
  delete_portforwarding rule_id token =
      call "DELETE" (String.◌++◌ "/portforward/" rule_id) token [] none

  unfoldable pub get_status : Option String → M (ClientError ⊎ Json)
  get_status token = call "GET" "/status" token [] none

  unfoldable pub get_floating_ips : Option String → M (ClientError ⊎ Json)
  get_floating_ips token = call "GET" "/floating-ips" token [] none

  unfoldable pub preview_port_allocation : String → Option String → M (ClientError ⊎ Json)
  preview_port_allocation service_type token =
      call "GET" "/port-allocation/preview" token (("service_type", service_type) ∷ []) none

  -- without a header
  unfoldable pub health_check : M (ClientError ⊎ Json)
  unfolding retrying attempt
  health_check = retrying waits (
      attempt (record {
        method = "GET";
        url = String.◌++◌ service.base_url "/health";
        authorization = none;
        params = [];
        body = none;
      }))

  -- `_handle_client_error`, in each handler
  unfoldable pub answer : ClientError ⊎ Json → M Json
  answer (inl e) = raise (http e.status_code (service.text_of e.detail))
  answer (inr j) = pure j

  -- The handlers: each calls the client without a token of its own and converts its error.
  unfoldable pub handle : M (ClientError ⊎ Json) → M Json
  unfolding answer
  handle m = m >>= answer
