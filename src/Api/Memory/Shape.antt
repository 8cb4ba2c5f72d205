-- ===== src/Api/Memory/Shape.antt =====
-- Values with pointers: what they reach in a memory, what they look like without the pointers, and
-- when one is a deep copy of another.
use k8s_ops_platform.Prelude.{
  ℕ, Option, none, some, List, [], ◌≤◌, ◌<◌, ◌≡◌, ◌⊎◌, inl, inr, refl, ap, ◌∙◌, arith,
}
use k8s_ops_platform.Api.{Action, ActionStatus}
use k8s_ops_platform.Api.Memory.{
  Pointer, RawStatus, RawAction, Cell, Memory, time_in, conditions_in, read,
}

-- What a kind of value reaches, and its view: both depend only on the cells that it reaches.
pub record Shape (A V : Type 0) : Type 1 where
  pub Reaches : Memory → A → ℕ → Type 0
  pub view : Memory → A → V
  pub view_local :
      (m m' : Memory) (x : A)
      → ((a : ℕ) → Reaches m x a → m'.cells a ≡ m.cells a)
      → view m' x ≡ view m x
  pub reach_local :
      (m m' : Memory) (x : A)
      → ((a : ℕ) → Reaches m x a → m'.cells a ≡ m.cells a)
      → (a : ℕ) → Reaches m' x a
      → Reaches m x a

-- A later memory, in which nothing that was allocated has changed.
pub record Extends (m m' : Memory) : Type 0 where
  pub grows : m.next ≤ m'.next
  pub keeps : (a : ℕ) → a < m.next → m'.cells a ≡ m.cells a

pub Extends-refl : (m : Memory) → Extends m m
Extends-refl m = record { grows = omega arith; keeps = λ a h. refl }

pub Extends-trans : (m m' m'' : Memory) → Extends m m' → Extends m' m'' → Extends m m''
Extends-trans m m' m'' e f = record {
  grows = omega (arith, e.grows, f.grows);
  keeps = λ a h. f.keeps a (omega (arith, e.grows, h)) ∙ e.keeps a h;
}

module _ {A V : Type 0} (shape : Shape A V) where
  -- All that is reached has been allocated.
  abbrev pub IsClosed : Memory → A → Type 0
  IsClosed m x = (a : ℕ) → shape.Reaches m x a → a < m.next

  -- `c` in the memory `m'` is a deep copy of `x` in the memory `m` before: it looks the same, and
  -- reaches only cells that were allocated in between.
  pub record IsCopy (m : Memory) (x : A) (m' : Memory) (c : A) : Type 0 where
    pub extends : Extends m m'
    pub same : shape.view m' c ≡ shape.view m x
    pub fresh : (a : ℕ) → shape.Reaches m' c a → (m.next ≤ a) × (a < m'.next)

  pub IsClosed-later : (m m' : Memory) (x : A) → Extends m m' → IsClosed m x → IsClosed m' x
  IsClosed-later m m' x e closed a r =
      let before = closed a (shape.reach_local m m' x (λ b q. e.keeps b (closed b q)) a r) in
      omega (arith, before, e.grows)

  pub view-later :
      (m m' : Memory) (x : A) → Extends m m' → IsClosed m x → shape.view m' x ≡ shape.view m x
  view-later m m' x e closed = shape.view_local m m' x (λ b q. e.keeps b (closed b q))

  -- More may be allocated after the copy, and before it.
  pub IsCopy-later :
      (m : Memory) (x : A) (m' : Memory) (c : A) (m'' : Memory)
      → IsCopy m x m' c
      → Extends m' m''
      → IsCopy m x m'' c
  IsCopy-later m x m' c m'' copy e =
      let kept = λ (b : ℕ) (q : shape.Reaches m' c b). e.keeps b (copy.fresh b q).1 in
      record {
        extends = Extends-trans m m' m'' copy.extends e;
        same = shape.view_local m' m'' c kept ∙ copy.same;
        fresh = λ a r.
            let (low, high) = copy.fresh a (shape.reach_local m' m'' c kept a r) in
            (low, omega (arith, high, e.grows));
      }

  pub IsCopy-earlier :
      (m0 m : Memory) (x : A) (m' : Memory) (c : A)
      → Extends m0 m
      → IsClosed m0 x
      → IsCopy m x m' c
      → IsCopy m0 x m' c
  IsCopy-earlier m0 m x m' c e closed copy = record {
    extends = Extends-trans m0 m m' e copy.extends;
    same = copy.same ∙ view-later m0 m x e closed;
    fresh = λ a r. let (low, high) = copy.fresh a r in (omega (arith, e.grows, low), high);
  }

-- A pointer to a cell that holds an `A`.
module _ {A : Type 0} (f : Cell → A) where
  pub read-local :
      (m m' : Memory) (p : Pointer)
      → ((a : ℕ) → p ≡ some a → m'.cells a ≡ m.cells a)
      → read f m' p ≡ read f m p
  read-local m m' none h = refl
  read-local m m' (some a) h = ap (λ c. some (f c)) (h a refl)

  abbrev pub pointer_shape : Shape Pointer (Option A)
  pointer_shape = record {
    Reaches = λ m p a. p ≡ some a;
    view = read f;
    view_local = read-local;
    reach_local = λ m m' p h a r. r;
  }

-- The slice that is nil and the one that is empty look the same.
abbrev pub elements : {A : Type 0} → Option (List A) → List A
elements none = []
elements (some xs) = xs

abbrev pub status_view : Memory → RawStatus → ActionStatus
status_view m s = record {
  phase = s.phase;
  message = s.message;
  started_at = read time_in m s.started_at;
  completed_at = read time_in m s.completed_at;
  observed_generation = s.observed_generation;
  retry_count = s.retry_count;
  conditions = elements (read conditions_in m s.conditions);
  execution_state = s.execution_state;
  target_uid = s.target_uid;
  workload_kind = s.workload_kind;
  workload_name = s.workload_name;
}

abbrev pub StatusReaches : Memory → RawStatus → ℕ → Type 0
StatusReaches m s a = (s.started_at ≡ some a) ⊎ (s.completed_at ≡ some a) ⊎ (s.conditions ≡ some a)

-- The view of a status, from those of its three pointers.
pub status_view-eq :
    (m m' : Memory) (s : RawStatus) (p q c : Pointer)
    → read time_in m' p ≡ read time_in m s.started_at
    → read time_in m' q ≡ read time_in m s.completed_at
    → read conditions_in m' c ≡ read conditions_in m s.conditions
    → status_view m' (record s { started_at = p; completed_at = q; conditions = c })
      ≡ status_view m s
status_view-eq m m' s p q c e f g = cc (e, f, g)

pub status_view-local :
    (m m' : Memory) (s : RawStatus)
    → ((a : ℕ) → StatusReaches m s a → m'.cells a ≡ m.cells a)
    → status_view m' s ≡ status_view m s
status_view-local m m' s h =
    status_view-eq m m' s s.started_at s.completed_at s.conditions
      (read-local time_in m m' s.started_at (λ a e. h a (inl e)))
      (read-local time_in m m' s.completed_at (λ a e. h a (inr (inl e))))
      (read-local conditions_in m m' s.conditions (λ a e. h a (inr (inr e))))

abbrev pub status_shape : Shape RawStatus ActionStatus
status_shape = record {
  Reaches = StatusReaches;
  view = status_view;
  view_local = status_view-local;
  reach_local = λ m m' s h a r. r;
}

abbrev pub action_view : Memory → RawAction → Action
action_view m x = record { metadata = x.metadata; spec = x.spec; status = status_view m x.status }

abbrev pub action_shape : Shape RawAction Action
action_shape = record {
  Reaches = λ m x a. StatusReaches m x.status a;
  view = action_view;
  view_local = λ m m' x h.
      ap (λ t. record { metadata = x.metadata; spec = x.spec; status = t })
        (status_view-local m m' x.status h);
  reach_local = λ m m' x h a r. r;
}
