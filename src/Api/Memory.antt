-- ===== src/Api/Memory.antt =====
-- The memory behind the pointers and slices of api/v1alpha1/action_types.go, and the deep copies of
-- api/v1alpha1/zz_generated.deepcopy.go with the cells that they allocate. What the library's own
-- types do when they are copied is a parameter. TypeMeta, a struct of two texts, is left out.
pub mod Shape
pub mod Copies
pub mod Lists
pub mod Apart
use k8s_ops_platform.Prelude.{
  ℕ, zero, suc, String, Option, none, some, List, [], ◌∷◌, ◌≡◌, ◌==◌, length, eqb, if◌then◌else◌,
}
use k8s_ops_platform.Prelude.Int.{ℤ}
use k8s_ops_platform.Api.{Action, ActionSpec, ActionStatus, Condition, ObjectMeta}

-- A *metav1.Time and a slice are addresses, or nil.
abbrev pub Pointer : Type 0
Pointer = Option ℕ

-- The structs ActionStatus and Action as they are in memory.
pub record RawStatus : Type 0 where
  pub phase : String
  pub message : String
  pub started_at : Pointer
  pub completed_at : Pointer
  pub observed_generation : ℤ
  pub retry_count : ℤ
  pub conditions : Pointer
  pub execution_state : String
  pub target_uid : String
  pub workload_kind : String
  pub workload_name : String

pub record RawAction : Type 0 where
  pub metadata : ObjectMeta
  pub spec : ActionSpec
  pub status : RawStatus

-- What an address may hold: a time, or the array behind a slice.
pub data Cell : Type 0 where
  time : ℕ → Cell
  condition_array : List Condition → Cell
  action_array : List RawAction → Cell

-- The addresses from `next` on are free.
pub record Memory : Type 0 where
  pub next : ℕ
  pub cells : ℕ → Cell

unfoldable pub set_cell : ℕ → Cell → Memory → Memory
set_cell a c m = record m { cells = λ b. if eqb b a then c else m.cells b }

unfoldable pub alloc : Cell → Memory → ℕ × Memory
unfolding set_cell
alloc c m = (m.next, record (set_cell m.next c m) { next = suc m.next })

unfoldable pub time_in : Cell → ℕ
time_in (time t) = t
time_in _ = 0

unfoldable pub conditions_in : Cell → List Condition
conditions_in (condition_array cs) = cs
conditions_in _ = []

unfoldable pub actions_in : Cell → List RawAction
actions_in (action_array xs) = xs
actions_in _ = []

-- What is read through a pointer.
abbrev pub read {ℓ} : {A : Type ℓ} → (Cell → A) → Memory → Pointer → Option A
read f m none = none
read f m (some a) = some (f (m.cells a))

-- The library's part: the metadata of a list, and the copies of its own types.
pub record Library : Type 1 where
  pub ListMeta : Type 0
  pub copy_object_meta : ObjectMeta → ObjectMeta
  pub copy_list_meta : ListMeta → ListMeta
  pub copy_time : ℕ → Memory → ℕ × Memory

-- ActionList
pub record RawActionList (lib : Library) : Type 0 where
  pub metadata : lib.ListMeta
  pub items : Pointer

abbrev zero_condition : Condition
zero_condition = record {
  type = "";
  status = "";
  observed_generation = ℤ.pos 0;
  last_transition_time = 0;
  reason = "";
  message = "";
}

-- make([]metav1.Condition, n)
unfoldable pub make_conditions : ℕ → List Condition
make_conditions zero = []
make_conditions (suc n) = zero_condition ∷ make_conditions n

abbrev zero_action : RawAction
zero_action = record {
  metadata = record { name = ""; namespace = ""; uid = ""; generation = ℤ.pos 0; labels = [] };
  spec = record {
    action_type = "";
    target = record { kind = ""; namespace = ""; name = "" };
    reason = "";
    timeout_seconds = ℤ.pos 0;
    requested_by = "";
    trigger_source = "";
  };
  status = record {
    phase = "";
    message = "";
    started_at = none;
    completed_at = none;
    observed_generation = ℤ.pos 0;
    retry_count = ℤ.pos 0;
    conditions = none;
    execution_state = "";
    target_uid = "";
    workload_kind = "";
    workload_name = "";
  };
}

-- make([]Action, n)
unfoldable pub make_actions : ℕ → List RawAction
make_actions zero = []
make_actions (suc n) = zero_action ∷ make_actions n

-- copy(dst, src), which stops at the end of the shorter one.
unfoldable pub overlay : {A : Type 0} → List A → List A → List A
overlay [] ys = []
overlay (x ∷ xs) [] = x ∷ xs
overlay (x ∷ xs) (y ∷ ys) = y ∷ overlay xs ys

-- if in.Conditions != nil
unfoldable pub copy_condition_slice : Pointer → Memory → Pointer × Memory
copy_condition_slice none m = (none, m)
copy_condition_slice (some a) m =
    let source = conditions_in (m.cells a) in
    let (b, made) = alloc (condition_array (make_conditions (length source))) m in
    (some b, set_cell b (condition_array (overlay (conditions_in (made.cells b)) source)) made)

-- if c := in.DeepCopy(); c != nil, where the result is an interface or nil.
unfoldable pub as_object : {A : Type 0} → Option A × Memory → Option A × Memory
as_object (none, m) = (none, m)
as_object (some c, m) = (some c, m)

module _ (lib : Library) where
  -- if in.StartedAt != nil, and the same for CompletedAt
  unfoldable pub copy_time_pointer : Pointer → Memory → Pointer × Memory
  copy_time_pointer none m = (none, m)
  copy_time_pointer (some a) m = (some (lib.copy_time a m).0, (lib.copy_time a m).1)

  -- ActionStatus.DeepCopyInto, with the status that it leaves in *out.
  unfoldable pub status_deep_copy_into : RawStatus → Memory → RawStatus × Memory
  status_deep_copy_into s m =
      let (started, m1) = copy_time_pointer s.started_at m in
      let (completed, m2) = copy_time_pointer s.completed_at m1 in
      let (conditions, m3) = copy_condition_slice s.conditions m2 in
      (record s { started_at = started; completed_at = completed; conditions = conditions }, m3)

  -- DeepCopyValue: the copy starts as the struct itself.
  unfoldable pub raw_deep_copy_value : RawStatus → Memory → RawStatus × Memory
  raw_deep_copy_value s m = status_deep_copy_into s m

  -- Action.DeepCopyInto
  unfoldable pub action_deep_copy_into : RawAction → Memory → RawAction × Memory
  action_deep_copy_into a m =
      let (status, m') = status_deep_copy_into a.status m in
      (record a { metadata = lib.copy_object_meta a.metadata; status = status }, m')

  -- Action.DeepCopy, with nil for none.
  unfoldable pub action_deep_copy : Option RawAction → Memory → Option RawAction × Memory
  action_deep_copy none m = (none, m)
  action_deep_copy (some a) m = (some (action_deep_copy_into a m).0, (action_deep_copy_into a m).1)

  -- Action.DeepCopyObject
  unfoldable pub action_deep_copy_object : Option RawAction → Memory → Option RawAction × Memory
  action_deep_copy_object a m = as_object (action_deep_copy a m)

  -- The loop over the items, with the elements that it writes to the new array.
  unfoldable pub copy_items : List RawAction → Memory → List RawAction × Memory
  copy_items [] m = ([], m)
  copy_items (x ∷ xs) m =
      let (y, m1) = action_deep_copy_into x m in let (ys, m2) = copy_items xs m1 in (y ∷ ys, m2)

  -- if in.Items != nil. Nothing reads the new array until the loop is over, so its elements are
  -- written together.
  unfoldable pub copy_item_slice : Pointer → Memory → Pointer × Memory
  copy_item_slice none m = (none, m)
  copy_item_slice (some a) m =
      let source = actions_in (m.cells a) in
      let (b, made) = alloc (action_array (make_actions (length source))) m in
      let (items, m') = copy_items source made in (some b, set_cell b (action_array items) m')

  -- ActionList.DeepCopyInto
  unfoldable pub list_deep_copy_into : RawActionList lib → Memory → RawActionList lib × Memory
  list_deep_copy_into l m =
      let (items, m') = copy_item_slice l.items m in
      (record l { metadata = lib.copy_list_meta l.metadata; items = items }, m')

  -- ActionList.DeepCopy
  unfoldable pub list_deep_copy :
      Option (RawActionList lib) → Memory → Option (RawActionList lib) × Memory
  list_deep_copy none m = (none, m)
  list_deep_copy (some l) m = (some (list_deep_copy_into l m).0, (list_deep_copy_into l m).1)

  -- ActionList.DeepCopyObject
  unfoldable pub list_deep_copy_object :
      Option (RawActionList lib) → Memory → Option (RawActionList lib) × Memory
  list_deep_copy_object l m = as_object (list_deep_copy l m)
