-- ===== src/Agent/Server/Endings.antt =====
-- How main and the server's goroutine end.
use k8s_ops_platform.Prelude.{
  String, List, Option, none, some, ◌∷◌, Bool, true, false, not, ◌||◌, ◌≡◌, ◌⊎◌, inl, inr, refl,
  arith, Bool-cases,
}
use k8s_ops_platform.Agent.Server.{Life, server_ended}

-- How far main is: it has not returned, or it has, after the context was done, and the server was
-- told to shut down.
abbrev pub HasEnded : Life → Type 0
HasEnded s = (s.has_returned ≡ false) ⊎ ((s.is_done ≡ true) × (s.is_shut ≡ true))

-- The log, with the line about a server that failed.
abbrev pub log_if : Bool → List String → List String
log_if true log = "metrics server" ∷ log
log_if false log = log

module _ {Failure : Type 0} (is_server_closed : Failure → Bool) where
  -- An error of the server that is not its being closed.
  abbrev pub has_failed : Option Failure → Bool
  has_failed none = false
  has_failed (some e) = not (is_server_closed e)

  pub server_ended-done :
      (e : Option Failure) (s : Life)
      → (server_ended is_server_closed e s).is_done ≡ (s.is_done || has_failed e)
  unfolding server_ended
  server_ended-done none s = ground arith
  server_ended-done (some e) s = ground arith

  -- What the end of the server leaves alone.
  pub server_ended-keeps :
      (e : Option Failure) (s : Life)
      → ((server_ended is_server_closed e s).is_refreshing ≡ s.is_refreshing)
        × ((server_ended is_server_closed e s).calls ≡ s.calls)
        × ((server_ended is_server_closed e s).has_returned ≡ s.has_returned)
  unfolding server_ended
  server_ended-keeps none s = (refl, refl, refl)
  server_ended-keeps (some e) s = (ground arith, ground arith, ground arith)

  -- The server is gone, and the log has a line if it failed.
  pub server_ended-log :
      (e : Option Failure) (s : Life)
      → ((server_ended is_server_closed e s).is_serving ≡ false)
        × ((server_ended is_server_closed e s).log ≡ log_if (has_failed e) s.log)
  unfolding server_ended
  server_ended-log none s = (refl, refl)
  server_ended-log (some e) s = elim (Bool-cases (is_server_closed e)) [
    | inl closed ↦ rw (closed, server_ended) (refl, refl)
    | inr failed ↦ rw (failed, server_ended) (refl, refl)
  ]
