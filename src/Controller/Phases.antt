-- ===== src/Controller/Phases.antt =====
-- controllers/state_machine.go
use k8s_ops_platform.Prelude.{String, Bool, true, false, ◌||◌, ◌==◌, if◌then◌else◌}
use k8s_ops_platform.Api.{pending, running, verifying, succeeded, failed}

unfoldable pub next_phase : String → String × Bool
next_phase current =
    if current == ""
    then (pending, true)
    else if current == pending
    then (running, true)
    else if current == running
    then (verifying, true)
    else if current == verifying
    then (succeeded, true)
    else (current, false)

unfoldable pub terminal : String → Bool
terminal phase = phase == succeeded || phase == failed
