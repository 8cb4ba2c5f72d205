-- ===== src/Samples/Lives.antt =====
-- The life of the agent's process, from the start of its server on, and its pages.
use k8s_ops_platform.Prelude.{String, List, [], ◌∷◌, Bool, some, true, false, ◌≡◌, refl, any}
use k8s_ops_platform.Agent.StatePage.{ticked, done, refresh, publish_cache_objects}
use k8s_ops_platform.Agent.Server.{
  Response, default_build, healthz, serve_http, Life, launched, server_ended, turn, end_main,
}
use k8s_ops_platform.Agent.Server.Endings.{HasEnded, log_if}
use k8s_ops_platform.Agent.Server.Lifetime.{
  Happening, server_returned, selected, main_awoke, Lives, rests, goes_on, stops, fails, selections,
  Lives-lifetime,
}

-- A failure of the HTTP server: whether it is that of its being closed.
abbrev is_closed : Bool → Bool
is_closed closed = closed

-- The server fails; the loop publishes once more before it leaves, and main returns.
abbrev failing : List (Happening String Bool)
failing =
    selected (ticked [])
    ∷ server_returned (some false)
    ∷ selected (ticked [])
    ∷ selected done
    ∷ main_awoke
    ∷ []

abbrev failed_life : Life
failed_life = record (launched []) {
  is_done = true;
  log = "metrics server" ∷ [];
  is_serving = false;
  is_refreshing = false;
  is_shut = true;
  has_returned = true;
}

failing-Lives : Lives is_closed failing (launched []) failed_life
unfolding server_ended turn end_main refresh publish_cache_objects
failing-Lives =
    goes_on (selected (ticked [])) _ refl (refl, tt)
      (goes_on (server_returned (some false)) _ refl refl (
        goes_on (selected (ticked [])) _ refl (refl, tt)
          (goes_on (selected done) _ refl (refl, refl) (goes_on main_awoke _ refl refl rests))))

Lives-lifetime_example :
    (true ≡ any (stops is_closed) failing)
    × HasEnded failed_life
    × ("metrics server" ∷ [] ≡ log_if (any (fails is_closed) failing) [])
    × ([] ≡ refresh (selections is_closed failing) [])
Lives-lifetime_example =
    Lives-lifetime is_closed failing (launched []) failed_life refl failing-Lives

abbrev page : Response
page = record { status = 200; headers = []; body = "page" }

-- The health page says which build it is.
healthz_test :
    (serve_http page (healthz default_build) page "/healthz").headers
    ≡ ("X-K8s-Ops-Version", "dev") ∷ ("X-K8s-Ops-Source", "local") ∷ []
unfolding serve_http
healthz_test = refl
