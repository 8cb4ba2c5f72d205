-- ===== src/Api/Memory/Copies.antt =====
-- The deep copies of an ActionStatus and of an Action.
use k8s_ops_platform.Prelude.{
  ℕ, Option, none, some, List, [], ◌∷◌, ◌≤◌, ◌<◌, ◌≡◌, inl, inr, refl, ap, ◌∙◌, arith, length,
}
use k8s_ops_platform.Api.{Condition, ObjectMeta}
use k8s_ops_platform.Api.Memory.{
  Pointer, RawStatus, RawAction, Cell, condition_array, Memory, set_cell, alloc, time_in,
  conditions_in, Library, make_conditions, overlay, copy_condition_slice, copy_time_pointer,
  status_deep_copy_into, action_deep_copy_into,
}
use k8s_ops_platform.Api.Memory.Shape.{
  Extends, Extends-refl, Extends-trans, IsClosed, IsCopy, IsCopy-later, IsCopy-earlier,
  pointer_shape, status_view, status_view-eq, status_shape, action_shape,
}

-- The library's copies: metadata looks the same, and a time is copied to a cell of its own.
pub record IsFaithful (lib : Library) : Type 0 where
  pub object_meta : (x : ObjectMeta) → lib.copy_object_meta x ≡ x
  pub list_meta : (x : lib.ListMeta) → lib.copy_list_meta x ≡ x
  pub time_low : (a : ℕ) (m : Memory) → m.next ≤ (lib.copy_time a m).0
  pub time_high : (a : ℕ) (m : Memory) → (lib.copy_time a m).0 < (lib.copy_time a m).1.next
  pub time_same :
      (a : ℕ) (m : Memory)
      → time_in ((lib.copy_time a m).1.cells (lib.copy_time a m).0) ≡ time_in (m.cells a)
  pub time_keeps :
      (a : ℕ) (m : Memory) (b : ℕ) → b < m.next → (lib.copy_time a m).1.cells b ≡ m.cells b

pub set_cell-same : (a : ℕ) (c : Cell) (m : Memory) → (set_cell a c m).cells a ≡ c
unfolding set_cell
set_cell-same a c m = ground arith

pub set_cell-other :
    (a b : ℕ) (c : Cell) (m : Memory) → (a ≡ b → ⊥) → (set_cell a c m).cells b ≡ m.cells b
unfolding set_cell
set_cell-other a b c m h = ground arith

pub alloc-Extends : (c : Cell) (m : Memory) → Extends m (alloc c m).1
unfolding alloc
alloc-Extends c m = record {
  grows = omega arith;
  keeps = λ a h. set_cell-other m.next a c m (λ e. omega (arith, e, h));
}

-- Writes to cells that are not allocated yet are seen by nobody.
pub set_cell-Extends :
    (a : ℕ) (c : Cell) (m m' : Memory) → Extends m m' → m.next ≤ a → Extends m (set_cell a c m')
unfolding set_cell
set_cell-Extends a c m m' e h = record {
  grows = e.grows;
  keeps = λ b q. set_cell-other a b c m' (λ p. omega (arith, p, h, q)) ∙ e.keeps b q;
}

overlay-made : (cs : List Condition) → overlay (make_conditions (length cs)) cs ≡ cs
unfolding overlay make_conditions
overlay-made [] = refl
overlay-made (c ∷ cs) = ap (λ ds. c ∷ ds) (overlay-made cs)

pub alloc-same : (c : Cell) (m : Memory) → (alloc c m).1.cells (alloc c m).0 ≡ c
unfolding alloc
alloc-same c m = set_cell-same m.next c m

pub alloc-address :
    (c : Cell) (m : Memory) → (m.next ≤ (alloc c m).0) × ((alloc c m).0 < (alloc c m).1.next)
unfolding alloc
alloc-address c m = (omega arith, omega arith)

-- The new array, before it is filled.
abbrev blank : List Condition → Cell
blank source = condition_array (make_conditions (length source))

-- make and copy, from a source array that is read once.
module _ (source : List Condition) (m : Memory) where
  abbrev made : ℕ × Memory
  made = alloc (blank source) m

  filled-same :
      conditions_in (
        (set_cell made.0
            (condition_array (overlay (conditions_in (made.1.cells made.0)) source))
            made.1).cells
          made.0)
      ≡ source
  unfolding conditions_in
  filled-same =
      ap conditions_in (set_cell-same made.0 _ made.1)
      ∙ ap (λ c. overlay (conditions_in c) source) (alloc-same (blank source) m)
      ∙ overlay-made source

pub some_inj : (a b : ℕ) → Path (Option ℕ) (some a) (some b) → a ≡ b
some_inj a b e = cc e

pub copy_condition_slice-IsCopy :
    (p : Pointer) (m : Memory)
    → IsCopy
        (pointer_shape conditions_in)
        m
        p
        (copy_condition_slice p m).1
        (copy_condition_slice p m).0
unfolding copy_condition_slice set_cell
copy_condition_slice-IsCopy none m = record {
  extends = Extends-refl m;
  same = refl;
  fresh = λ a r. absurd (cc r);
}
copy_condition_slice-IsCopy (some a) m =
    let source = conditions_in (m.cells a) in
    let (low, high) = alloc-address (blank source) m in
    record {
      extends = set_cell-Extends _ _ m _ (alloc-Extends (blank source) m) low;
      same = ap (λ cs. some cs) (filled-same source m);
      fresh = λ b r. let e = some_inj _ _ r in (omega (arith, e, low), omega (arith, e, high));
    }

module _ (lib : Library) (faithful : IsFaithful lib) where
  copy_time-Extends : (a : ℕ) (m : Memory) → Extends m (lib.copy_time a m).1
  copy_time-Extends a m = record {
    grows = omega (arith, faithful.time_low a m, faithful.time_high a m);
    keeps = faithful.time_keeps a m;
  }

  copy_time_pointer-IsCopy :
      (p : Pointer) (m : Memory)
      → IsCopy
          (pointer_shape time_in)
          m
          p
          (copy_time_pointer lib p m).1
          (copy_time_pointer lib p m).0
  unfolding copy_time_pointer
  copy_time_pointer-IsCopy none m = record {
    extends = Extends-refl m;
    same = refl;
    fresh = λ a r. absurd (cc r);
  }
  copy_time_pointer-IsCopy (some a) m = record {
    extends = copy_time-Extends a m;
    same = ap (λ t. some t) (faithful.time_same a m);
    fresh = λ b r.
        let e = some_inj _ _ r in
        (omega (arith, e, faithful.time_low a m), omega (arith, e, faithful.time_high a m));
  }

  -- A copy of each of the three pointers of a status is a copy of the status.
  status-IsCopy :
      (s : RawStatus) (m m' : Memory) (p q c : Pointer)
      → IsCopy (pointer_shape time_in) m s.started_at m' p
      → IsCopy (pointer_shape time_in) m s.completed_at m' q
      → IsCopy (pointer_shape conditions_in) m s.conditions m' c
      → IsCopy status_shape m s m' (record s { started_at = p; completed_at = q; conditions = c })
  status-IsCopy s m m' p q c x y z = record {
    extends = x.extends;
    same = status_view-eq m m' s p q c x.same y.same z.same;
    fresh = λ a r. elim r [
      | inl e ↦ x.fresh a e
      | inr (inl e) ↦ y.fresh a e
      | inr (inr e) ↦ z.fresh a e
    ];
  }

  pub status_deep_copy_into-IsCopy :
      (s : RawStatus) (m : Memory)
      → IsClosed status_shape m s
      → IsCopy status_shape m s (status_deep_copy_into lib s m).1 (status_deep_copy_into lib s m).0
  unfolding status_deep_copy_into
  status_deep_copy_into-IsCopy s m closed =
      let (p, m1) = copy_time_pointer lib s.started_at m in
      let (q, m2) = copy_time_pointer lib s.completed_at m1 in
      let (c, m3) = copy_condition_slice s.conditions m2 in
      let x = copy_time_pointer-IsCopy s.started_at m in
      let y = copy_time_pointer-IsCopy s.completed_at m1 in
      let z = copy_condition_slice-IsCopy s.conditions m2 in
      let x12 = Extends-trans m m1 m2 x.extends y.extends in
      status-IsCopy s m m3 p q c
        (IsCopy-later _ m _ m1 p m3 x (Extends-trans m1 m2 m3 y.extends z.extends))
        (IsCopy-later _ m _ m2 q m3
          (IsCopy-earlier _ m m1 _ m2 q x.extends (λ a e. closed a (inr (inl e))) y) z.extends)
        (IsCopy-earlier _ m m2 _ m3 c x12 (λ a e. closed a (inr (inr e))) z)

  pub action_deep_copy_into-IsCopy :
      (x : RawAction) (m : Memory)
      → IsClosed action_shape m x
      → IsCopy action_shape m x (action_deep_copy_into lib x m).1 (action_deep_copy_into lib x m).0
  unfolding action_deep_copy_into
  action_deep_copy_into-IsCopy x m closed =
      let copy = status_deep_copy_into-IsCopy x.status m closed in
      record {
        extends = copy.extends;
        same =
            ap
              (λ t. record {
                metadata = lib.copy_object_meta x.metadata;
                spec = x.spec;
                status = t;
              })
              copy.same
            ∙ ap (λ y. record { metadata = y; spec = x.spec; status = status_view m x.status })
                (faithful.object_meta x.metadata);
        fresh = copy.fresh;
      }
