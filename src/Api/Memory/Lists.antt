-- ===== src/Api/Memory/Lists.antt =====
-- The deep copy of an ActionList.
use k8s_ops_platform.Prelude.{
  ℕ, Option, none, some, List, [], ◌∷◌, ◌≤◌, ◌<◌, ◌≡◌, ◌⊎◌, inl, inr, refl, ap, ◌∙◌, subst, arith,
  length,
}
use k8s_ops_platform.Api.{Action}
use k8s_ops_platform.Api.Memory.{
  Pointer, RawAction, action_array, Memory, set_cell, alloc, actions_in, Library, RawActionList,
  make_actions, copy_items, copy_item_slice, list_deep_copy_into, action_deep_copy_into,
}
use k8s_ops_platform.Api.Memory.Shape.{
  Shape, Extends, Extends-refl, IsClosed, IsClosed-later, IsCopy, IsCopy-later, IsCopy-earlier,
  StatusReaches, action_view, action_shape,
}
use k8s_ops_platform.Api.Memory.Copies.{
  IsFaithful, set_cell-same, set_cell-other, set_cell-Extends, alloc-Extends, alloc-address,
  action_deep_copy_into-IsCopy,
}

-- The elements of an array.
abbrev pub ItemsReach : Memory → List RawAction → ℕ → Type 0
ItemsReach m [] a = ⊥
ItemsReach m (x ∷ xs) a = StatusReaches m x.status a ⊎ ItemsReach m xs a

abbrev pub items_view : Memory → List RawAction → List Action
items_view m [] = []
items_view m (x ∷ xs) = action_view m x ∷ items_view m xs

items_view-local :
    (m m' : Memory) (xs : List RawAction)
    → ((a : ℕ) → ItemsReach m xs a → m'.cells a ≡ m.cells a)
    → items_view m' xs ≡ items_view m xs
items_view-local m m' [] h = refl
items_view-local m m' (x ∷ xs) h =
    let e = action_shape.view_local m m' x (λ a r. h a (inl r)) in
    let f = items_view-local m m' xs (λ a r. h a (inr r)) in cc (e, f)

-- What the elements reach does not depend on the memory.
ItemsReach-any :
    (m m' : Memory) (xs : List RawAction) (a : ℕ) → ItemsReach m' xs a → ItemsReach m xs a
ItemsReach-any m m' [] a r = r
ItemsReach-any m m' (x ∷ xs) a (inl r) = inl r
ItemsReach-any m m' (x ∷ xs) a (inr r) = inr (ItemsReach-any m m' xs a r)

abbrev items_shape : Shape (List RawAction) (List Action)
items_shape = record {
  Reaches = ItemsReach;
  view = items_view;
  view_local = items_view-local;
  reach_local = λ m m' xs h. ItemsReach-any m m' xs;
}

-- A slice reaches its array, and what the elements of the array reach.
abbrev pub SliceReaches : Memory → Pointer → ℕ → Type 0
SliceReaches m none a = ⊥
SliceReaches m (some b) a = (a ≡ b) ⊎ ItemsReach m (actions_in (m.cells b)) a

abbrev pub slice_view : Memory → Pointer → Option (List Action)
slice_view m none = none
slice_view m (some b) = some (items_view m (actions_in (m.cells b)))

pub slice_view-local :
    (m m' : Memory) (p : Pointer)
    → ((a : ℕ) → SliceReaches m p a → m'.cells a ≡ m.cells a)
    → slice_view m' p ≡ slice_view m p
slice_view-local m m' none h = refl
slice_view-local m m' (some b) h =
    ap (λ c. some (items_view m' (actions_in c))) (h b (inl refl))
    ∙ ap (λ ys. some ys) (items_view-local m m' (actions_in (m.cells b)) (λ a r. h a (inr r)))

pub SliceReaches-local :
    (m m' : Memory) (p : Pointer)
    → ((a : ℕ) → SliceReaches m p a → m'.cells a ≡ m.cells a)
    → (a : ℕ) → SliceReaches m' p a
    → SliceReaches m p a
SliceReaches-local m m' none h a r = absurd r
SliceReaches-local m m' (some b) h a (inl e) = inl e
SliceReaches-local m m' (some b) h a (inr r) =
    inr (ItemsReach-any m m' _ a (subst (λ c. ItemsReach m' (actions_in c) a) (h b (inl refl)) r))

abbrev pub slice_shape : Shape Pointer (Option (List Action))
slice_shape = record {
  Reaches = SliceReaches;
  view = slice_view;
  view_local = slice_view-local;
  reach_local = SliceReaches-local;
}

-- An ActionList without its pointers: the items are none where the slice is nil.
pub record ActionList (lib : Library) : Type 0 where
  pub metadata : lib.ListMeta
  pub items : Option (List Action)

abbrev pub list_shape : (lib : Library) → Shape (RawActionList lib) (ActionList lib)
list_shape lib = record {
  Reaches = λ m l a. SliceReaches m l.items a;
  view = λ m l. record { metadata = l.metadata; items = slice_view m l.items };
  view_local = λ m m' l h.
      ap (λ items. record { metadata = l.metadata; items = items })
        (slice_view-local m m' l.items h);
  reach_local = λ m m' l h. SliceReaches-local m m' l.items h;
}

module _ (lib : Library) (faithful : IsFaithful lib) where
  copy_items-IsCopy :
      (xs : List RawAction) (m : Memory)
      → IsClosed items_shape m xs
      → IsCopy items_shape m xs (copy_items lib xs m).1 (copy_items lib xs m).0
  unfolding copy_items
  copy_items-IsCopy [] m closed = record {
    extends = Extends-refl m;
    same = refl;
    fresh = λ a r. absurd r;
  }
  copy_items-IsCopy (x ∷ xs) m closed =
      let (y, m1) = action_deep_copy_into lib x m in
      let (ys, m2) = copy_items lib xs m1 in
      let first = action_deep_copy_into-IsCopy lib faithful x m (λ a r. closed a (inl r)) in
      let xs_closed = λ (a : ℕ) (r : ItemsReach m xs a). closed a (inr r) in
      let rest =
        copy_items-IsCopy xs m1 (IsClosed-later items_shape m m1 xs first.extends xs_closed) in
      let here = IsCopy-later action_shape m x m1 y m2 first rest.extends in
      let there = IsCopy-earlier items_shape m m1 xs m2 ys first.extends xs_closed rest in
      record {
        extends = here.extends;
        same = let e = here.same in let f = there.same in cc (e, f);
        fresh = λ a r. elim r [ inl q ↦ here.fresh a q | inr q ↦ there.fresh a q ];
      }

  -- The memory after the loop, and the array with the copied elements in it.
  module _ (b : ℕ) (made m' : Memory) (items : List RawAction) (before : b < made.next)
      (extends : Extends made m')
      (fresh : (a : ℕ) → ItemsReach m' items a → (made.next ≤ a) × (a < m'.next)) where
    abbrev filled : Memory
    filled = set_cell b (action_array items) m'

    filled-array : actions_in (filled.cells b) ≡ items
    unfolding actions_in
    filled-array = ap actions_in (set_cell-same b (action_array items) m')

    filled-view : slice_view filled (some b) ≡ some (items_view m' items)
    filled-view =
        ap (λ xs. some (items_view filled xs)) filled-array
        ∙ ap (λ ys. some ys)
            (items_view-local m' filled items (λ a r.
              set_cell-other b a (action_array items) m'
                (λ e. omega (arith, e, before, (fresh a r).0))))

    filled-fresh : (a : ℕ) → SliceReaches filled (some b) a → (b ≤ a) × (a < filled.next)
    unfolding set_cell
    filled-fresh a (inl e) = (omega (arith, e), omega (arith, e, before, extends.grows))
    filled-fresh a (inr r) =
        let (low, high) = fresh a (
          ItemsReach-any m' filled items a (subst (λ xs. ItemsReach filled xs a) filled-array r)) in
        (omega (arith, before, low), high)

  copy_item_slice-IsCopy :
      (p : Pointer) (m : Memory)
      → IsClosed slice_shape m p
      → IsCopy slice_shape m p (copy_item_slice lib p m).1 (copy_item_slice lib p m).0
  unfolding copy_item_slice
  copy_item_slice-IsCopy none m closed = record {
    extends = Extends-refl m;
    same = refl;
    fresh = λ a r. absurd r;
  }
  copy_item_slice-IsCopy (some a) m closed =
      let source = actions_in (m.cells a) in
      let blank = action_array (make_actions (length source)) in
      let (b, made) = alloc blank m in
      let (items, m') = copy_items lib source made in
      let (low, before) = alloc-address blank m in
      let first = alloc-Extends blank m in
      let inside = λ (c : ℕ) (r : ItemsReach m source c). closed c (inr r) in
      let inner =
        copy_items-IsCopy source made (IsClosed-later items_shape m made source first inside) in
      let outer = IsCopy-earlier items_shape m made source m' items first inside inner in
      record {
        extends = set_cell-Extends b (action_array items) m m' outer.extends low;
        same =
            filled-view b made m' items before inner.extends inner.fresh
            ∙ ap (λ ys. some ys) outer.same;
        fresh = λ c r.
            let (more, high) = filled-fresh b made m' items before inner.extends inner.fresh c r in
            (omega (arith, low, more), high);
      }

  pub list_deep_copy_into-IsCopy :
      (l : RawActionList lib) (m : Memory)
      → IsClosed (list_shape lib) m l
      → IsCopy (list_shape lib) m l (list_deep_copy_into lib l m).1 (list_deep_copy_into lib l m).0
  unfolding list_deep_copy_into
  list_deep_copy_into-IsCopy l m closed =
      let copy = copy_item_slice-IsCopy l.items m closed in
      record {
        extends = copy.extends;
        same = let e = faithful.list_meta l.metadata in let f = copy.same in cc (e, f);
        fresh = copy.fresh;
      }
