-- ===== src/Agent/Server/Lifetime.antt =====
-- The agent from the start of its refreshing loop to the return of main, in every order of what happens.
use k8s_ops_platform.Prelude.{
  Option, List, [], ◌∷◌, Bool, true, false, ◌||◌, ◌≡◌, inl, inr, refl, ap, ◌∙◌, arith, any,
}
use k8s_ops_platform.Agent.StatePage.{Selected, ticked, done, refresh}
use k8s_ops_platform.Agent.Server.{Life, cancel, server_ended, turn, end_main}
use k8s_ops_platform.Agent.Server.Endings.{
  HasEnded, log_if, has_failed, server_ended-done, server_ended-keeps, server_ended-log,
}

-- What may happen: a signal arrives, ListenAndServe returns, the refreshing loop takes a case of its
-- select, and main gets past its wait for the context.
pub data Happening (Object Failure : Type 0) : Type 0 where
  interrupted : Happening Object Failure
  server_returned : Option Failure → Happening Object Failure
  selected : Selected Object → Happening Object Failure
  main_awoke : Happening Object Failure

module _ {Object Failure : Type 0} (is_server_closed : Failure → Bool) where
  abbrev IsReady : Selected Object → Life → Type 0
  IsReady (ticked sources) s = Unit
  IsReady done s = s.is_done ≡ true

  -- When it may happen, while main has not returned.
  abbrev MayHappen : Happening Object Failure → Life → Type 0
  MayHappen interrupted s = Unit
  MayHappen (server_returned e) s = s.is_serving ≡ true
  MayHappen (selected sel) s = (s.is_refreshing ≡ true) × IsReady sel s
  MayHappen main_awoke s = s.is_done ≡ true

  abbrev happen : Happening Object Failure → Life → Life
  happen interrupted s = cancel s
  happen (server_returned e) s = server_ended is_server_closed e s
  happen (selected sel) s = turn sel s
  happen main_awoke s = end_main s

  pub data Lives : List (Happening Object Failure) → Life → Life → Type 0 where
    rests : {s : Life} → Lives [] s s
    goes_on :
        {s u : Life} (h : Happening Object Failure) (hs : List (Happening Object Failure))
        → s.has_returned ≡ false
        → MayHappen h s
        → Lives hs (happen h s) u
        → Lives (h ∷ hs) s u

  abbrev pub stops : Happening Object Failure → Bool
  stops interrupted = true
  stops (server_returned e) = has_failed is_server_closed e
  stops (selected sel) = false
  stops main_awoke = false

  -- The server has returned with a failure.
  abbrev pub fails : Happening Object Failure → Bool
  fails interrupted = false
  fails (server_returned e) = has_failed is_server_closed e
  fails (selected sel) = false
  fails main_awoke = false

  abbrev pub selections : List (Happening Object Failure) → List (Selected Object)
  selections [] = []
  selections (selected sel ∷ hs) = sel ∷ selections hs
  selections (interrupted ∷ hs) = selections hs
  selections (server_returned e ∷ hs) = selections hs
  selections (main_awoke ∷ hs) = selections hs

  happen-done :
      (h : Happening Object Failure) (s : Life)
      → MayHappen h s
      → (happen h s).is_done ≡ (s.is_done || stops h)
  unfolding turn end_main
  happen-done interrupted s may = ground arith
  happen-done (server_returned e) s may = server_ended-done is_server_closed e s
  happen-done (selected sel) s may = ground arith
  happen-done main_awoke s may = ground arith

  Lives-done :
      {s u : Life} (hs : List (Happening Object Failure))
      → Lives hs s u
      → u.is_done ≡ (s.is_done || any stops hs)
  Lives-done {s} hs rests = ground arith
  Lives-done {s} _ (goes_on h hs live may l) = ground (arith, Lives-done hs l, happen-done h s may)

  -- Once the loop has left, it selects no more.
  Lives-idle :
      {s u : Life} (hs : List (Happening Object Failure))
      → Lives hs s u
      → s.is_refreshing ≡ false
      → selections hs ≡ []
  unfolding turn server_ended end_main
  Lives-idle hs rests idle = refl
  Lives-idle {s} _ (goes_on interrupted hs live may l) idle = Lives-idle hs l idle
  Lives-idle {s} _ (goes_on (server_returned e) hs live may l) idle =
      Lives-idle hs l ((server_ended-keeps is_server_closed e s).0 ∙ idle)
  Lives-idle {s} _ (goes_on (selected sel) hs live may l) idle = absurd (cc (idle, may.0))
  Lives-idle {s} _ (goes_on main_awoke hs live may l) idle = Lives-idle hs l idle

  happen-HasEnded :
      (h : Happening Object Failure) (s : Life) → s.has_returned ≡ false → HasEnded (happen h s)
  unfolding turn end_main
  happen-HasEnded interrupted s live = inl live
  happen-HasEnded (server_returned e) s live =
      inl ((server_ended-keeps is_server_closed e s).2 ∙ live)
  happen-HasEnded (selected sel) s live = inl live
  happen-HasEnded main_awoke s live = inr (refl, refl)

  Lives-HasEnded :
      {s u : Life} (hs : List (Happening Object Failure)) → Lives hs s u → HasEnded s → HasEnded u
  Lives-HasEnded hs rests h = h
  Lives-HasEnded {s} _ (goes_on h hs live may l) ended =
      Lives-HasEnded hs l (happen-HasEnded h s live)

  -- The server that is gone does not return once more.
  Lives-gone :
      {s u : Life} (hs : List (Happening Object Failure))
      → Lives hs s u
      → s.is_serving ≡ false
      → (any fails hs ≡ false) × (u.log ≡ s.log)
  unfolding turn end_main
  Lives-gone hs rests gone = (refl, refl)
  Lives-gone _ (goes_on interrupted hs live may l) gone = Lives-gone hs l gone
  Lives-gone _ (goes_on (server_returned e) hs live may l) gone = absurd (cc (gone, may))
  Lives-gone _ (goes_on (selected sel) hs live may l) gone = Lives-gone hs l gone
  Lives-gone _ (goes_on main_awoke hs live may l) gone = Lives-gone hs l gone

  Lives-log :
      {s u : Life} (hs : List (Happening Object Failure))
      → Lives hs s u
      → u.log ≡ log_if (any fails hs) s.log
  unfolding turn end_main
  Lives-log hs rests = refl
  Lives-log _ (goes_on interrupted hs live may l) = Lives-log hs l
  Lives-log {s} _ (goes_on (server_returned e) hs live may l) =
      let (gone, line) = server_ended-log is_server_closed e s in
      let (no_more, same) = Lives-gone hs l gone in
      let once : (has_failed is_server_closed e || any fails hs) ≡ has_failed is_server_closed e =
        ground (arith, no_more) in
      rw once (same ∙ line)
  Lives-log _ (goes_on (selected sel) hs live may l) = Lives-log hs l
  Lives-log _ (goes_on main_awoke hs live may l) = Lives-log hs l

  Lives-calls :
      {s u : Life} (hs : List (Happening Object Failure))
      → Lives hs s u
      → u.calls ≡ refresh (selections hs) s.calls
  unfolding turn end_main refresh
  Lives-calls hs rests = refl
  Lives-calls _ (goes_on interrupted hs live may l) = Lives-calls hs l
  Lives-calls {s} _ (goes_on (server_returned e) hs live may l) =
      Lives-calls hs l
      ∙ ap (λ cs. refresh (selections hs) cs) (server_ended-keeps is_server_closed e s).1
  Lives-calls _ (goes_on (selected (ticked sources)) hs live may l) = Lives-calls hs l
  Lives-calls {s} _ (goes_on (selected done) hs live may l) =
      Lives-calls hs l ∙ ap (λ sels. refresh sels s.calls) (Lives-idle hs l refl)
  Lives-calls _ (goes_on main_awoke hs live may l) = Lives-calls hs l

  -- Whatever happens from the start of the refreshing loop on, and in whatever order: the context is
  -- done exactly when it was, or a signal has come, or the server has failed, and its being closed is no
  -- failure. Main has returned only after that, and then it has shut the server down. The log gets one
  -- line about the server, when it has failed, and no other. The calls of the metrics are those of the
  -- refreshing loop, for the cases that it took.
  pub Lives-lifetime :
      (hs : List (Happening Object Failure)) (s u : Life)
      → s.has_returned ≡ false
      → Lives hs s u
      → (u.is_done ≡ (s.is_done || any stops hs))
        × HasEnded u
        × (u.log ≡ log_if (any fails hs) s.log)
        × (u.calls ≡ refresh (selections hs) s.calls)
  Lives-lifetime hs s u live l =
      (Lives-done hs l, Lives-HasEnded hs l (inl live), Lives-log hs l, Lives-calls hs l)
