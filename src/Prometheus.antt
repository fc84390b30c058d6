-- ===== src/Prometheus.antt =====
-- api/v1/prometheus.py. `http_request` is `_http_request` of utils/httpclient.py, and what a response
-- holds as JSON has the fields that the code reads; a missing value of a sample is a KeyError.
pub mod Visible
mod Tests
use Prim.Native.String
use skyline_apiserver_extens.Common.{
  ℕ, String, Bool, true, false, Option, none, some, List, [], ◌∷◌, ◌==◌, eqb, filter, if◌then◌else◌,
}
use skyline_apiserver_extens.Common.Dict.{Dict, lookup, insert}
use skyline_apiserver_extens.Runtime.{Json, Result, ok, err, http, other, ◌>>=◌}
use skyline_apiserver_extens.Profile.{Profile}
use skyline_apiserver_extens.Roles.{RoleConf, is_system_admin_or_reader}

-- An item of `resp["data"]["result"]`.
pub record Item : Type 0 where
  pub metric : Dict String
  pub value : Option Json
  pub values : Option Json

pub record Items : Type 0 where
  pub result_type : String
  pub result : List Item

-- `resp.json()`
pub record Body : Type 0 where
  pub status : String
  pub warnings : Option String
  pub error_type : Option String
  pub error : Option String
  pub payload : Option Items

-- `PrometheusQueryResult`, `PrometheusQueryRangeResult`
pub record QueryResult : Type 0 where
  pub metric : Dict String
  pub value : Json

pub record QueryData : Type 0 where
  pub result_type : String
  pub result : List QueryResult

-- `PrometheusQueryResponse`, `PrometheusQueryRangeResponse`
pub record QueryResponse : Type 0 where
  pub status : String
  pub warnings : Option String
  pub error_type : Option String
  pub error : Option String
  pub payload : Option QueryData

pub record HttpRequest : Type 0 where
  pub url : String
  pub params : Dict String
  pub auth : Option (String × String)

pub record HttpResponse : Type 0 where
  pub status_code : ℕ
  pub text : String
  pub json : Result Body

-- the options of `CONF.default` that are read
pub record PrometheusConf : Type 0 where
  pub endpoint : String
  pub enable_basic_auth : Bool
  pub basic_auth_user : String
  pub basic_auth_password : String

-- `i.metric["project_id"] == profile.project.id`, where the key is there
abbrev pub own_project : Profile → QueryResult → Bool
own_project profile i = elim (lookup "project_id" i.metric) [
  | none ↦ false
  | some id ↦ id == profile.project.id
]

-- `i["value"]` or `i["values"]`
unfoldable pub required : Option Json → Result Json
required none = err (other "KeyError")
required (some v) = ok v

unfoldable pub results : (Item → Option Json) → List Item → Result (List QueryResult)
unfolding required
results value [] = ok []
results value (i ∷ items) = do
  v ← required (value i)
  rest ← results value items
  ok (record { metric = i.metric; value = v } ∷ rest)

-- `if x is not None: kwargs[key] = x`
abbrev add_param : String → Option String → Dict String → Dict String
add_param key none d = d
add_param key (some x) d = insert key x d

module _ (roles : RoleConf) where
  unfoldable pub visible : Profile → List QueryResult → List QueryResult
  visible profile result =
      if is_system_admin_or_reader roles profile
      then result
      else filter (own_project profile) result

  -- `get_prometheus_query_response` and `get_prometheus_query_range_response`
  unfoldable pub query_response : (Item → Option Json) → Body → Profile → Result QueryResponse
  unfolding results visible
  query_response value resp profile = elim resp.payload [
    | none ↦ ok (record {
      status = resp.status;
      warnings = resp.warnings;
      error_type = resp.error_type;
      error = resp.error;
      payload = none;
    })
    | some d ↦ do
      result ← results value d.result
      ok (record {
        status = resp.status;
        warnings = resp.warnings;
        error_type = resp.error_type;
        error = resp.error;
        payload = some (record { result_type = d.result_type; result = visible profile result });
      })
  ]

  unfoldable pub get_prometheus_query_response : Body → Profile → Result QueryResponse
  get_prometheus_query_response resp profile = query_response (λ i. i.value) resp profile

  unfoldable pub get_prometheus_query_range_response : Body → Profile → Result QueryResponse
  get_prometheus_query_range_response resp profile = query_response (λ i. i.values) resp profile

  module _ (conf : PrometheusConf) (http_request : HttpRequest → Result HttpResponse) where
    abbrev pub auth : Option (String × String)
    auth =
        if conf.enable_basic_auth
        then some (conf.basic_auth_user, conf.basic_auth_password)
        else none

    -- the request, and its body where the status is 200
    unfoldable pub ask_prometheus : String → Dict String → Result Body
    ask_prometheus api params = do
      resp ←
          http_request
            (record { url = String.◌++◌ conf.endpoint api; params = params; auth = auth })
      if eqb resp.status_code 200 then resp.json else err (http resp.status_code resp.text)

    unfoldable pub prometheus_query :
        Option String → Option String → Option String → Profile → Result QueryResponse
    unfolding ask_prometheus
    prometheus_query query time timeout profile = do
      body ←
          ask_prometheus "/api/v1/query"
            (add_param "timeout" timeout (add_param "time" time (add_param "query" query [])))
      get_prometheus_query_response body profile

    unfoldable pub prometheus_query_range :
        Option String
        → Option String
        → Option String
        → Option String
        → Option String
        → Profile
        → Result QueryResponse
    unfolding ask_prometheus
    prometheus_query_range query start stop step timeout profile = do
      body ← ask_prometheus "/api/v1/query_range" (
          add_param "timeout" timeout (
            add_param "step" step
              (add_param "end" stop (add_param "start" start (add_param "query" query [])))))
      get_prometheus_query_range_response body profile
