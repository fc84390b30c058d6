-- ===== src/Prometheus/Tests.antt =====
-- The theorems on metrics at a concrete answer of Prometheus.
use skyline_apiserver_extens.Common.{String, refl, false, none, some, [], ◌∷◌, All}
use skyline_apiserver_extens.Common.Int.{pos}
use skyline_apiserver_extens.Runtime.{num, Result, ok}
use skyline_apiserver_extens.Roles.{is_system_admin_or_reader}
use skyline_apiserver_extens.Prometheus.{
  Item, Items, Body, QueryResult, HttpRequest, HttpResponse, PrometheusConf, prometheus_query,
  prometheus_query_range,
}
use skyline_apiserver_extens.Prometheus.Visible.{shown, Own, queries-Own}
use skyline_apiserver_extens.Samples.{role_conf, member}

abbrev item : String → Item
item project = record {
  metric = ("project_id", project) ∷ [];
  value = some (num (pos 1));
  values = some (num (pos 2));
}

abbrev items : Items
items = record { result_type = "vector"; result = item "p1" ∷ item "p2" ∷ [] }

abbrev body : Body
body = record {
  status = "success";
  warnings = none;
  error_type = none;
  error = none;
  payload = some items;
}

abbrev conf : PrometheusConf
conf = record {
  endpoint = "http://localhost:9091";
  enable_basic_auth = false;
  basic_auth_user = "";
  basic_auth_password = "";
}

abbrev http_request : HttpRequest → Result HttpResponse
http_request r = ok (record { status_code = 200; text = ""; json = ok body })

queries-Own_example :
    All
      (Own member)
      (shown (prometheus_query role_conf conf http_request (some "up") none none member))
    × All (Own member) (
        shown (
          prometheus_query_range role_conf conf http_request
            (some "up")
            none
            none
            none
            none
            member))
unfolding is_system_admin_or_reader
queries-Own_example =
    queries-Own role_conf member refl conf http_request (some "up") none none none none none

abbrev result : String → QueryResult
result project = record { metric = ("project_id", project) ∷ []; value = num (pos 1) }
