-- ===== src/Samples/Memories.antt =====
-- The deep copies at a memory with a list of one Action.
use k8s_ops_platform.Prelude.{
  ℕ, String, none, some, [], ◌∷◌, ◌≡◌, inl, inr, refl, arith, eqb, if◌then◌else◌,
}
use k8s_ops_platform.Prelude.Int.{ℤ}
use k8s_ops_platform.Api.{running, pod_restart, empty_status, deep_copy_value}
use k8s_ops_platform.Api.Memory.{
  RawStatus, RawAction, Cell, time, condition_array, action_array, Memory, alloc, time_in, Library,
  raw_deep_copy_value,
}
use k8s_ops_platform.Api.Memory.Shape.{IsClosed, status_view, status_shape}
use k8s_ops_platform.Api.Memory.Copies.{IsFaithful, alloc-Extends, alloc-address, alloc-same}
use k8s_ops_platform.Api.Memory.Apart.{write_cells, raw_deep_copy_value-written}
use k8s_ops_platform.Samples.{action_at}

-- A library whose copy of a time allocates a cell.
abbrev copier : Library
copier = record {
  ListMeta = String;
  copy_object_meta = λ x. x;
  copy_list_meta = λ x. x;
  copy_time = λ a m. alloc (time (time_in (m.cells a))) m;
}

copied_time :
    (a : ℕ) (m : Memory)
    → time_in ((copier.copy_time a m).1.cells (copier.copy_time a m).0) ≡ time_in (m.cells a)
unfolding time_in
copied_time a m = rw (alloc-same (time (time_in (m.cells a))) m) refl

copier-IsFaithful : IsFaithful copier
copier-IsFaithful = record {
  object_meta = λ x. refl;
  list_meta = λ x. refl;
  time_low = λ a m. (alloc-address (time (time_in (m.cells a))) m).0;
  time_high = λ a m. (alloc-address (time (time_in (m.cells a))) m).1;
  time_same = copied_time;
  time_keeps = λ a m. (alloc-Extends (time (time_in (m.cells a))) m).keeps;
}

abbrev at_work : RawStatus
at_work = record {
  phase = running;
  message = "execution started";
  started_at = some 0;
  completed_at = none;
  observed_generation = ℤ.pos 1;
  retry_count = ℤ.pos 0;
  conditions = some 1;
  execution_state = "";
  target_uid = "";
  workload_kind = "";
  workload_name = "";
}

abbrev restart : RawAction
restart =
    let a = action_at pod_restart "web-1" empty_status in
    record { metadata = a.metadata; spec = a.spec; status = at_work }

abbrev three_cells : ℕ → Cell
three_cells a =
    if eqb a 0 then time 5 else if eqb a 1 then condition_array [] else action_array (restart ∷ [])

abbrev memory : Memory
memory = record { next = 3; cells = three_cells }

at_work-IsClosed : IsClosed status_shape memory at_work
at_work-IsClosed a (inl e) = ground arith
at_work-IsClosed a (inr (inl e)) = ground arith
at_work-IsClosed a (inr (inr e)) = ground arith

raw_deep_copy_value-written_example :
    let (out, m') = raw_deep_copy_value copier at_work memory in
    status_view (write_cells ((0, time 7) ∷ []) m') out
    ≡ deep_copy_value (status_view memory at_work)
raw_deep_copy_value-written_example =
    raw_deep_copy_value-written copier copier-IsFaithful at_work memory at_work-IsClosed
      ((0, time 7) ∷ []) (ground arith)
