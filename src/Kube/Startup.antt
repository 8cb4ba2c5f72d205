-- ===== src/Kube/Startup.antt =====
-- The way both processes start: steps one after the other, each of which may fail, and then the error
-- is logged with a message for the step and the process exits with the code 1.
use k8s_ops_platform.Prelude.{
  String, Option, none, some, List, [], ◌∷◌, Bool, true, false, ◌≡◌, refl, sym, subst,
}
use k8s_ops_platform.Kube.{M, pure, ◌>>=◌}
use k8s_ops_platform.Kube.Errors.{Result, ok, err}

-- How `main` ends: it returns, or os.Exit(1) after a line in the log, with an error or without one.
pub data Exit (Failure : Type 0) : Type 0 where
  returned : Exit Failure
  exit_1 : String → Option Failure → Exit Failure

-- The world, and the steps taken so far, newest first, each with whether its operation succeeded.
pub record Process (World Step : Type 0) : Type 0 where
  pub world : World
  pub steps : List (Step × Bool)

-- Whether an operation succeeded, by what it returned.
abbrev is_ok : {Failure A : Type 0} → Result Failure A → Bool
is_ok (ok a) = true
is_ok (err e) = false

abbrev is_none : {Failure : Type 0} → Option Failure → Bool
is_none none = true
is_none (some e) = false

module _ {World Step : Type 0} where
  abbrev pub perform : {A : Type 0} → (A → Bool) → Step → M World A → M (Process World Step) A
  perform succeeded step op p = (
    (op p.world).0,
    record { world = (op p.world).1; steps = (step, succeeded (op p.world).0) ∷ p.steps },
  )

module _ {Step Failure : Type 0} (message : Step → String) where
  -- A run of steps in their order: through all of them, each with success, or up to the first one that
  -- fails, with its message.
  pub data Runs : List Step → List (Step × Bool) → List (Step × Bool) → Exit Failure → Type 0 where
    completes : (taken : List (Step × Bool)) → Runs [] taken taken returned
    stops :
        (step : Step) (steps : List Step) (taken : List (Step × Bool)) (e : Option Failure)
        → Runs (step ∷ steps) taken ((step, false) ∷ taken) (exit_1 (message step) e)
    goes_on :
        (step : Step) (steps : List Step) (taken taken' : List (Step × Bool)) (out : Exit Failure)
        → Runs steps ((step, true) ∷ taken) taken' out
        → Runs (step ∷ steps) taken taken' out

module _ {World Step Failure : Type 0} (message : Step → String) where
  abbrev pub proceed :
      {A : Type 0}
      → Step
      → (A → M (Process World Step) (Exit Failure))
      → Result Failure A
      → M (Process World Step) (Exit Failure)
  proceed step next (ok a) = next a
  proceed step next (err e) = pure (exit_1 (message step) (some e))

  -- x, err := op(); if err != nil { ... }
  unfoldable pub require :
      {A : Type 0}
      → Step
      → M World (Result Failure A)
      → (A → M (Process World Step) (Exit Failure))
      → M (Process World Step) (Exit Failure)
  require step op next = do result ← perform is_ok step op; proceed step next result

  abbrev pub proceed_unless :
      Step
      → M (Process World Step) (Exit Failure)
      → Option Failure
      → M (Process World Step) (Exit Failure)
  proceed_unless step next none = next
  proceed_unless step next (some e) = pure (exit_1 (message step) (some e))

  -- if err := op(); err != nil { ... }
  unfoldable pub check :
      Step
      → M World (Option Failure)
      → M (Process World Step) (Exit Failure)
      → M (Process World Step) (Exit Failure)
  check step op next = do e ← perform is_none step op; proceed_unless step next e

  abbrev pub proceed_if :
      Step → M (Process World Step) (Exit Failure) → Bool → M (Process World Step) (Exit Failure)
  proceed_if step next true = next
  proceed_if step next false = pure (exit_1 (message step) none)

  -- if !op() { ... }
  unfoldable pub ensure :
      Step
      → M World Bool
      → M (Process World Step) (Exit Failure)
      → M (Process World Step) (Exit Failure)
  ensure step op next = do b ← perform (λ b. b) step op; proceed_if step next b

  -- An effect that runs the steps, from any process.
  abbrev pub DoesRun : List Step → M (Process World Step) (Exit Failure) → Type 0
  DoesRun steps m = (p : Process World Step) → Runs message steps p.steps (m p).1.steps (m p).0

  -- The rest of a run, when the newest step on the list has been taken, with success or without.
  abbrev Continues :
      Step → List Step → List (Step × Bool) → Bool → M (Process World Step) (Exit Failure) → Type 0
  Continues step steps taken succeeded m =
      (p : Process World Step)
      → p.steps ≡ (step, succeeded) ∷ taken
      → Runs message (step ∷ steps) taken (m p).1.steps (m p).0

  goes-Continues :
      (step : Step) (steps : List Step) (taken : List (Step × Bool))
      (m : M (Process World Step) (Exit Failure))
      → DoesRun steps m
      → Continues step steps taken true m
  goes-Continues step steps taken m h p e = goes_on step steps taken _ _ (
      subst (λ (before : List (Step × Bool)). Runs message steps before (m p).1.steps (m p).0) e
        (h p))

  stops-Continues :
      (step : Step) (steps : List Step) (taken : List (Step × Bool)) (e : Option Failure)
      → Continues step steps taken false (pure (exit_1 (message step) e))
  stops-Continues step steps taken e p same =
      subst
        (λ (after : List (Step × Bool)).
          Runs message (step ∷ steps) taken after (exit_1 (message step) e))
        (sym same) (stops step steps taken e)

  proceed-Continues :
      {A : Type 0} (step : Step) (steps : List Step) (taken : List (Step × Bool))
      (next : A → M (Process World Step) (Exit Failure)) (r : Result Failure A)
      → ((a : A) → DoesRun steps (next a))
      → Continues step steps taken (is_ok r) (proceed step next r)
  proceed-Continues step steps taken next (ok a) h = goes-Continues step steps taken (next a) (h a)
  proceed-Continues step steps taken next (err e) h = stops-Continues step steps taken (some e)

  proceed_unless-Continues :
      (step : Step) (steps : List Step) (taken : List (Step × Bool))
      (next : M (Process World Step) (Exit Failure)) (e : Option Failure)
      → DoesRun steps next
      → Continues step steps taken (is_none e) (proceed_unless step next e)
  proceed_unless-Continues step steps taken next none h = goes-Continues step steps taken next h
  proceed_unless-Continues step steps taken next (some e) h =
      stops-Continues step steps taken (some e)

  pub require-Runs :
      {A : Type 0} (step : Step) (op : M World (Result Failure A))
      (next : A → M (Process World Step) (Exit Failure)) (steps : List Step)
      → ((a : A) → DoesRun steps (next a))
      → DoesRun (step ∷ steps) (require step op next)
  unfolding require
  require-Runs step op next steps h p =
      proceed-Continues step steps p.steps next (op p.world).0 h _ refl

  pub check-Runs :
      (step : Step) (op : M World (Option Failure)) (next : M (Process World Step) (Exit Failure))
      (steps : List Step)
      → DoesRun steps next
      → DoesRun (step ∷ steps) (check step op next)
  unfolding check
  check-Runs step op next steps h p =
      proceed_unless-Continues step steps p.steps next (op p.world).0 h _ refl

  proceed_if-Continues :
      (step : Step) (steps : List Step) (taken : List (Step × Bool))
      (next : M (Process World Step) (Exit Failure)) (b : Bool)
      → DoesRun steps next
      → Continues step steps taken b (proceed_if step next b)
  proceed_if-Continues step steps taken next true h = goes-Continues step steps taken next h
  proceed_if-Continues step steps taken next false h = stops-Continues step steps taken none

  pub ensure-Runs :
      (step : Step) (op : M World Bool) (next : M (Process World Step) (Exit Failure))
      (steps : List Step)
      → DoesRun steps next
      → DoesRun (step ∷ steps) (ensure step op next)
  unfolding ensure
  ensure-Runs step op next steps h p =
      proceed_if-Continues step steps p.steps next (op p.world).0 h _ refl
