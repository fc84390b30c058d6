-- ===== src/Prometheus/Visible.antt =====
-- What a user sees of the metrics.
use skyline_apiserver_extens.Common.{
  String, ◌≡◌, refl, ap, Bool, true, false, Option, none, some, inl, inr, Option-cases, List, [],
  ◌∷◌, ◌==◌, eq_iff, filter, All, arith,
}
use skyline_apiserver_extens.Common.Dict.{lookup}
use skyline_apiserver_extens.Runtime.{Json, Result, ok, err, ◌>>=◌}
use skyline_apiserver_extens.Profile.{Profile}
use skyline_apiserver_extens.Roles.{RoleConf, is_system_admin_or_reader}
use skyline_apiserver_extens.Prometheus.{
  Item, Items, Body, QueryResult, QueryResponse, HttpRequest, HttpResponse, PrometheusConf,
  own_project, results, visible, query_response, get_prometheus_query_response,
  get_prometheus_query_range_response, ask_prometheus, prometheus_query, prometheus_query_range,
}

-- The results that an answer shows; an exception shows none.
abbrev pub shown : Result QueryResponse → List QueryResult
shown (err _) = []
shown (ok r) = elim r.payload [ none ↦ [] | some d ↦ d.result ]

-- A result of the user's own project.
abbrev pub Own : Profile → QueryResult → Type 0
Own profile i = lookup "project_id" i.metric ≡ some profile.project.id

own_id :
    (mine : String) (o : Option String)
    → (elim o [ none ↦ false | some id ↦ id == mine ]) ≡ true
    → o ≡ some mine
own_id mine none h = cc
own_id mine (some id) h = ap some ((eq_iff id mine).0 h)

All-Own-filter :
    (profile : Profile) (xs : List QueryResult)
    → All (Own profile) (filter (own_project profile) xs)
All-Own-filter profile [] = tt
All-Own-filter profile (x ∷ xs) =
    ground
      (arith, own_id profile.project.id (lookup "project_id" x.metric), All-Own-filter profile xs)

-- The response around a list of results.
abbrev response_of : RoleConf → Profile → Body → Items → List QueryResult → QueryResponse
response_of roles profile body d result = record {
  status = body.status;
  warnings = body.warnings;
  error_type = body.error_type;
  error = body.error;
  payload = some (record { result_type = d.result_type; result = visible roles profile result });
}

module _ (roles : RoleConf) (profile : Profile)
    (plain : is_system_admin_or_reader roles profile ≡ false) where
  results-Own :
      (body : Body) (d : Items) (x : Result (List QueryResult))
      → All (Own profile) (shown (x >>= λ result. ok (response_of roles profile body d result)))
  unfolding visible
  results-Own body d (err e) = tt
  results-Own body d (ok xs) = rw plain (All-Own-filter profile xs)

  response-Own :
      (value : Item → Option Json) (body : Body)
      → All (Own profile) (shown (query_response roles value body profile))
  unfolding query_response
  response-Own value body = elim (Option-cases body.payload) [
    | inl absent ↦ rw (absent, query_response) tt
    | inr (d, present) ↦ rw (present, query_response) (results-Own body d (results value d.result))
  ]

  bind-Own :
      (x : Result Body) (f : Body → Result QueryResponse)
      → ((body : Body) → All (Own profile) (shown (f body)))
      → All (Own profile) (shown (x >>= f))
  bind-Own (err e) f h = tt
  bind-Own (ok body) f h = h body

  -- A user who is neither an administrator nor a reader is shown only results of the own project by
  -- both queries, whatever is asked for and whatever Prometheus answers.
  pub queries-Own :
      (conf : PrometheusConf) (http_request : HttpRequest → Result HttpResponse)
      (query time start stop step timeout : Option String)
      → All
          (Own profile)
          (shown (prometheus_query roles conf http_request query time timeout profile))
        × All (Own profile) (
            shown (
              prometheus_query_range roles conf http_request query start stop step timeout profile))
  unfolding prometheus_query prometheus_query_range get_prometheus_query_response
      get_prometheus_query_range_response
  queries-Own conf http_request query time start stop step timeout = (
    bind-Own (ask_prometheus roles conf http_request _ _) _ (response-Own (λ i. i.value)),
    bind-Own (ask_prometheus roles conf http_request _ _) _ (response-Own (λ i. i.values)),
  )

-- No result of the user's own project is left out, and their order is kept.
filter-filter : {A : Type 0} (p : A → Bool) (xs : List A) → filter p (filter p xs) ≡ filter p xs
filter-filter p [] = refl
filter-filter p (x ∷ xs) = ground (arith, filter-filter p xs)

-- Whoever asks, the results of the user's own project that Prometheus gives are shown, all of them
-- and in order.
pub visible_keeps_own :
    (roles : RoleConf) (value : Item → Option Json) (body : Body) (d : Items)
    (xs : List QueryResult) (profile : Profile)
    → body.payload ≡ some d
    → results value d.result ≡ ok xs
    → filter (own_project profile) (shown (query_response roles value body profile))
      ≡ filter (own_project profile) xs
unfolding query_response visible
visible_keeps_own roles value body d xs profile present given =
    rw (present, given, query_response) (ground (arith, filter-filter (own_project profile) xs))
