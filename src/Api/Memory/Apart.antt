-- ===== src/Api/Memory/Apart.antt =====
-- What a deep copy is good for: nothing that is written through the one shows in the other.
use k8s_ops_platform.Prelude.{ℕ, some, List, [], ◌∷◌, All, ◌≤◌, ◌<◌, ◌≡◌, refl, sym, ◌∙◌, arith}
use k8s_ops_platform.Api.{deep_copy_value}
use k8s_ops_platform.Api.Equality.{deep_copy_value_lem}
use k8s_ops_platform.Api.Memory.{
  RawStatus, Cell, Memory, set_cell, Library, RawActionList, as_object, raw_deep_copy_value,
  list_deep_copy_into, list_deep_copy, list_deep_copy_object,
}
use k8s_ops_platform.Api.Memory.Shape.{
  Shape, IsClosed, IsCopy, view-later, status_view, status_shape,
}
use k8s_ops_platform.Api.Memory.Copies.{IsFaithful, set_cell-other, status_deep_copy_into-IsCopy}
use k8s_ops_platform.Api.Memory.Lists.{list_shape, list_deep_copy_into-IsCopy}

-- Writes one after the other, each of a cell to an address.
abbrev pub write_cells : List (ℕ × Cell) → Memory → Memory
write_cells [] m = m
write_cells ((a, c) ∷ ws) m = write_cells ws (set_cell a c m)

write_cells-above :
    (n : ℕ) (ws : List (ℕ × Cell)) (m : Memory)
    → All (λ w. w.0 < n) ws
    → (a : ℕ) → n ≤ a
    → (write_cells ws m).cells a ≡ m.cells a
write_cells-above n [] m below a h = refl
write_cells-above n ((b, c) ∷ ws) m (lt, below) a h =
    write_cells-above n ws (set_cell b c m) below a h
    ∙ set_cell-other b a c m (λ e. omega (arith, e, lt, h))

write_cells-below :
    (n : ℕ) (ws : List (ℕ × Cell)) (m : Memory)
    → All (λ w. n ≤ w.0) ws
    → (a : ℕ) → a < n
    → (write_cells ws m).cells a ≡ m.cells a
write_cells-below n [] m above a h = refl
write_cells-below n ((b, c) ∷ ws) m (le, above) a h =
    write_cells-below n ws (set_cell b c m) above a h
    ∙ set_cell-other b a c m (λ e. omega (arith, e, le, h))

All-map :
    {P Q : ℕ × Cell → Type 0} (ws : List (ℕ × Cell))
    → ((w : ℕ × Cell) → P w → Q w)
    → All P ws
    → All Q ws
All-map [] f h = h
All-map {P} {Q} (w ∷ ws) f (p, h) = (f w p, All-map {P = P} {Q = Q} ws f h)

module _ {A V : Type 0} (shape : Shape A V) (m : Memory) (x : A) (m' : Memory) (c : A)
    (closed : IsClosed shape m x) (copy : IsCopy shape m x m' c) where
  original-kept : (a : ℕ) → shape.Reaches m' x a → a < m.next
  original-kept a r =
      closed a (shape.reach_local m m' x (λ b q. copy.extends.keeps b (closed b q)) a r)

  -- Writes to cells from before the copy do not show in the copy, and writes to newer cells do not show
  -- in the original.
  copy-written :
      (ws : List (ℕ × Cell))
      → All (λ w. w.0 < m.next) ws
      → shape.view (write_cells ws m') c ≡ shape.view m x
  copy-written ws below =
      shape.view_local m' (write_cells ws m') c
        (λ a r. write_cells-above m.next ws m' below a (copy.fresh a r).0)
      ∙ copy.same

  original-written :
      (ws : List (ℕ × Cell))
      → All (λ w. m.next ≤ w.0) ws
      → shape.view (write_cells ws m') x ≡ shape.view m x
  original-written ws above =
      shape.view_local m' (write_cells ws m') x
        (λ a r. write_cells-below m.next ws m' above a (original-kept a r))
      ∙ view-later shape m m' x copy.extends closed

  copy-Apart :
      (ws vs : List (ℕ × Cell))
      → All (λ w. shape.Reaches m' c w.0) ws
      → All (λ w. shape.Reaches m' x w.0) vs
      → (shape.view m' c ≡ shape.view m x)
        × (shape.view (write_cells ws m') x ≡ shape.view m x)
        × (shape.view (write_cells vs m') c ≡ shape.view m x)
  copy-Apart ws vs through_copy through_original = (
    copy.same,
    original-written ws (All-map ws (λ w r. (copy.fresh w.0 r).0) through_copy),
    copy-written vs (All-map vs (λ w r. original-kept w.0 r) through_original),
  )

module _ (lib : Library) (faithful : IsFaithful lib) where
  -- The value that DeepCopyValue returns is the copy field by field, `deep_copy_value`, of the status
  -- as it was, and stays so whatever is then written to cells that were there before the copy, those of
  -- the status among them. The status reaches allocated cells only, and the library copies a time to a
  -- new cell.
  pub raw_deep_copy_value-written :
      (s : RawStatus) (m : Memory)
      → IsClosed status_shape m s
      → (ws : List (ℕ × Cell)) → All (λ w. w.0 < m.next) ws
      → let (out, m') = raw_deep_copy_value lib s m in
        status_view (write_cells ws m') out ≡ deep_copy_value (status_view m s)
  unfolding raw_deep_copy_value
  raw_deep_copy_value-written s m closed ws below =
      let copy = status_deep_copy_into-IsCopy lib faithful s m closed in
      copy-written status_shape m s _ _ closed copy ws below
      ∙ sym (deep_copy_value_lem (status_view m s))

  -- DeepCopyObject of an ActionList is an object that looks like the list did. Writes through the copy,
  -- to cells that it reaches, its items' cells included, leave the look of the list as it was, and
  -- writes through the list leave that of the copy. The list reaches allocated cells only, and the
  -- library copies metadata to what looks the same and a time to a new cell.
  list_deep_copy_object-Apart :
      (l : RawActionList lib) (m : Memory)
      → IsClosed (list_shape lib) m l
      → let (c, m') = list_deep_copy_into lib l m in
        let view = (list_shape lib).view in
        (ws vs : List (ℕ × Cell))
        → All (λ w. (list_shape lib).Reaches m' c w.0) ws
        → All (λ w. (list_shape lib).Reaches m' l w.0) vs
        → (list_deep_copy_object lib (some l) m ≡ (some c, m'))
          × (view m' c ≡ view m l)
          × (view (write_cells ws m') l ≡ view m l)
          × (view (write_cells vs m') c ≡ view m l)
  unfolding list_deep_copy_object list_deep_copy as_object
  list_deep_copy_object-Apart l m closed ws vs through_copy through_list =
      let (same, list_kept, copy_kept) =
        copy-Apart (list_shape lib) m l _ _ closed
          (list_deep_copy_into-IsCopy lib faithful l m closed) ws vs through_copy through_list in
      (refl, same, list_kept, copy_kept)
