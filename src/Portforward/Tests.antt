-- ===== src/Portforward/Tests.antt =====
-- The client over a service that cannot be reached.
use skyline_apiserver_extens.Common.{◌≡◌, refl, none, []}
use skyline_apiserver_extens.Runtime.{err, other}
use skyline_apiserver_extens.World.{portforward, steps}
use skyline_apiserver_extens.Portforward.{Service, attempt, retrying, call}
use skyline_apiserver_extens.Portforward.Attempts.{Attempted, call-Attempted}
use skyline_apiserver_extens.Samples.{world}

abbrev service : Service
service = record {
  base_url = "http://forward";
  authorization_key = "key";
  send = λ _ _. err (other "ConnectError");
  text_of = λ _. "error";
}

call-Attempted_example :
    Attempted
      (portforward "GET" "http://forward/status")
      3
      3
      world
      (call service "GET" "/status" none [] none world)
call-Attempted_example = call-Attempted service "GET" "/status" none [] none world

-- the last error is tenacity's own
unreachable : (call service "GET" "/status" none [] none world).0 ≡ err (other "RetryError")
unfolding call retrying attempt steps
unreachable = refl
