-- ===== src/Agent/Server.antt =====
-- The HTTP server of cmd/agent/main.go, and what main, the server's goroutine and the refreshing loop
-- do from the start of that loop until main returns. A server that fails before is a state to start from.
-- The answers of promhttp and of the JSON encoder are parameters, and so is what ListenAndServe returns.
pub mod Endings
pub mod Lifetime
use k8s_ops_platform.Prelude.{
  ℕ, String, Option, none, some, List, [], ◌∷◌, Bool, true, false, ◌==◌, if◌then◌else◌,
}
use k8s_ops_platform.Metrics.{MetricCall}
use k8s_ops_platform.Agent.StatePage.{
  CacheSource, ResourceState, state_page, Selected, ticked, done, refresh,
}

-- internal/buildinfo: the two variables, which the linker may set.
pub record Build : Type 0 where
  pub version : String
  pub source : String

abbrev pub default_build : Build
default_build = record { version = "dev"; source = "local" }

pub record Response : Type 0 where
  pub status : ℕ
  pub headers : List (String × String)
  pub body : String

-- /healthz
abbrev pub healthz : Build → Response
healthz build = record {
  status = 200;
  headers = ("X-K8s-Ops-Version", build.version) ∷ ("X-K8s-Ops-Source", build.source) ∷ [];
  body = "";
}

-- /state, where the encoder gives the text that it writes, and an error or none. The line for an error
-- goes to the log.
abbrev pub encode_error : {Failure : Type 0} → Option Failure → List String → List String
encode_error none log = log
encode_error (some e) log = "encode agent state" ∷ log

abbrev pub state :
    {Object Failure : Type 0}
    → (Object → Option String)
    → (List ResourceState → String × Option Failure)
    → List (CacheSource Object)
    → List String
    → Response × List String
state key_func encode sources log =
    let (text, e) = encode (state_page key_func sources []) in
    (
      record { status = 200; headers = ("Content-Type", "application/json") ∷ []; body = text },
      encode_error e log,
    )

-- The mux: none of the patterns ends in a slash, so that each stands for its own path.
unfoldable pub serve_http : Response → Response → Response → String → Response
serve_http metrics health page path =
    if path == "/metrics"
    then metrics
    else if path == "/healthz"
    then health
    else if path == "/state"
    then page
    else record { status = 404; headers = []; body = "404 page not found" }

-- What the three share: whether the context is done, the calls of the metrics and the lines of the
-- log, newest first; and how far each of them is.
pub record Life : Type 0 where
  pub is_done : Bool
  pub calls : List MetricCall
  pub log : List String
  pub is_serving : Bool
  pub is_refreshing : Bool
  pub is_shut : Bool
  pub has_returned : Bool

-- At the start of the loop, where the server still runs.
abbrev pub launched : List MetricCall → Life
launched calls = record {
  is_done = false;
  calls = calls;
  log = [];
  is_serving = true;
  is_refreshing = true;
  is_shut = false;
  has_returned = false;
}

-- stop(), and what the signals do to the context.
abbrev pub cancel : Life → Life
cancel s = record s { is_done = true }

module _ {Failure : Type 0} (is_server_closed : Failure → Bool) where
  -- The goroutine of the server, from the return of ListenAndServe on.
  unfoldable pub server_ended : Option Failure → Life → Life
  server_ended none s = record s { is_serving = false }
  server_ended (some e) s =
      if is_server_closed e
      then record s { is_serving = false }
      else cancel (record s { is_serving = false; log = "metrics server" ∷ s.log })

abbrev still : {Object : Type 0} → Selected Object → Bool
still (ticked sources) = true
still done = false

-- One turn of the refreshing loop.
unfoldable pub turn : {Object : Type 0} → Selected Object → Life → Life
turn sel s = record s { calls = refresh (sel ∷ []) s.calls; is_refreshing = still sel }

-- The end of main, once the context is done: the deferred calls of Shutdown and stop.
unfoldable pub end_main : Life → Life
end_main s = cancel (record s { is_shut = true; has_returned = true })
