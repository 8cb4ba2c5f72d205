-- ===== src/Agent/StatePage/Unordered.antt =====
-- The /state page does not depend on the order in which a store lists its objects, which is that of a
-- map, while it shows them all: it is a function of the store as a bag.
use mathlib.Core.Bool.{Bool-set}
use mathlib.Core.HLevel.{Discrete, hedberg}
use mathlib.Core.List
use mathlib.Core.List.{foldr, Perm}
use native.Mathlib.Nat.{ℕ_set}
use mathlib.Core.List.Perm
use mathlib.Core.Quot
use mathlib.Core.Quot.{Quot}
use k8s_ops_platform.Prelude.{
  ℕ, zero, suc, String, Option, none, some, List, [], ◌∷◌, Bool, true, false, ◌≤◌, ◌≡◌, inl, inr,
  refl, ap, sym, ◌∙◌, arith, Bool-cases, ◌==◌, eq_iff, length, take,
}
use k8s_ops_platform.Agent.StatePage.{
  CacheSource, ResourceState, max_names, comes_after, insert_sorted, sort_strings, collect_names,
  resource_state,
}
use k8s_ops_platform.Agent.StatePage.Order.{comes_after-flip}
use k8s_ops_platform.Agent.StatePage.Names.{keys, key_list, length-keys, collect_names-take}
use k8s_ops_platform.Agent.StatePage.Comparison.{comes_after_trans, comes_after_antisym}

insert-before :
    (x z : String) (zs : List String)
    → comes_after x z ≡ false
    → insert_sorted x (z ∷ zs) ≡ x ∷ z ∷ zs
unfolding insert_sorted
insert-before x z zs h = rw h refl

insert-after :
    (x z : String) (zs : List String)
    → comes_after x z ≡ true
    → insert_sorted x (z ∷ zs) ≡ z ∷ insert_sorted x zs
unfolding insert_sorted
insert-after x z zs h = rw h refl

-- Where the first of two texts comes after the other one.
insert-head :
    (x y : String) (zs : List String)
    → comes_after x y ≡ true
    → insert_sorted x (insert_sorted y zs) ≡ insert_sorted y (insert_sorted x zs)
unfolding insert_sorted
insert-head x y [] after =
    insert-after x y [] after ∙ sym (insert-before y x [] (comes_after-flip x y after))
insert-head x y (z ∷ zs) after =
    let low = comes_after-flip x y after in
    elim (Bool-cases (comes_after y z)) [
      | inl after_z ↦
          let far : comes_after x z ≡ true = elim (Bool-cases (comes_after x z)) [
            | inl far ↦ far
            | inr near ↦ absurd (cc (low, comes_after_trans x y z after_z near))
          ] in
          ap (insert_sorted x) (insert-after y z zs after_z)
          ∙ insert-after x z (insert_sorted y zs) far
          ∙ ap (λ ts. z ∷ ts) (insert-head x y zs after)
          ∙ sym (insert-after y z (insert_sorted x zs) after_z)
          ∙ sym (ap (insert_sorted y) (insert-after x z zs far))
      | inr before_z ↦
          ap (insert_sorted x) (insert-before y z zs before_z)
          ∙ insert-after x y (z ∷ zs) after
          ∙ (elim (Bool-cases (comes_after x z)) [
            | inl far ↦
                ap (λ ts. y ∷ ts) (insert-after x z zs far)
                ∙ sym (insert-before y z (insert_sorted x zs) before_z)
                ∙ sym (ap (insert_sorted y) (insert-after x z zs far))
            | inr near ↦
                ap (λ ts. y ∷ ts) (insert-before x z zs near)
                ∙ sym (insert-before y x (z ∷ zs) low)
                ∙ sym (ap (insert_sorted y) (insert-before x z zs near))
          ])
    ]

insert_sorted_comm :
    (x y : String) (zs : List String)
    → insert_sorted x (insert_sorted y zs) ≡ insert_sorted y (insert_sorted x zs)
insert_sorted_comm x y zs = elim (Bool-cases (comes_after x y)) [
  | inl after ↦ insert-head x y zs after
  | inr before ↦ elim (Bool-cases (comes_after y x)) [
    | inl after ↦ sym (insert-head y x zs after)
    | inr neither ↦
        ap (λ t. insert_sorted t (insert_sorted y zs)) (comes_after_antisym x y before neither)
        ∙ ap (λ t. insert_sorted y (insert_sorted t zs))
            (sym (comes_after_antisym x y before neither))
  ]
]

take-whole : (n : ℕ) (xs : List String) → length xs ≤ n → take n xs ≡ xs
take-whole zero [] h = refl
take-whole zero (x ∷ xs) h = absurd (omega (arith, h))
take-whole (suc n) [] h = refl
take-whole (suc n) (x ∷ xs) h = ap (λ ys. x ∷ ys) (take-whole n xs (omega (arith, h)))

String-discrete : Discrete String
String-discrete s t = elim (Bool-cases (s == t)) [
  | inl same ↦ Dec.yes ((eq_iff s t).0 same)
  | inr differ ↦ Dec.no (λ e. ground (arith, eq_iff s t))
]

Names-set : IsSet (List String)
Names-set = List.is_set (hedberg String-discrete)

module _ {Object : Type 0} (key_func : Object → Option String) where
  -- The name of an object, put into the sorted names.
  abbrev enter : Option String → List String → List String
  enter none names = names
  enter (some key) names = insert_sorted key names

  enter_comm :
      (a b : Option String) (names : List String)
      → enter a (enter b names) ≡ enter b (enter a names)
  enter_comm none b names = refl
  enter_comm (some key) none names = refl
  enter_comm (some key) (some key') names = insert_sorted_comm key key' names

  sort-key_list :
      (a : Option String) (ks : List String)
      → sort_strings (key_list key_func a ks) ≡ enter a (sort_strings ks)
  unfolding sort_strings
  sort-key_list none ks = refl
  sort-key_list (some key) ks = refl

  sort-keys :
      (os : List Object)
      → sort_strings (keys key_func os) ≡ foldr (λ o names. enter (key_func o) names) [] os
  unfolding sort_strings
  sort-keys [] = refl
  sort-keys (o ∷ os) =
      sort-key_list (key_func o) (keys key_func os) ∙ ap (enter (key_func o)) (sort-keys os)

  sort-keys-perm :
      (os os' : List Object)
      → Perm os os'
      → sort_strings (keys key_func os) ≡ sort_strings (keys key_func os')
  sort-keys-perm os os' p =
      sort-keys os
      ∙ Perm.foldr-eq Names-set (λ o names. enter (key_func o) names)
          (λ o o' names. enter_comm (key_func o) (key_func o') names) p []
      ∙ sym (sort-keys os')

  length-fold : (os : List Object) → length os ≡ foldr (λ o n. suc n) 0 os
  length-fold [] = refl
  length-fold (o ∷ os) = ap suc (length-fold os)

  length-perm : (os os' : List Object) → Perm os os' → length os ≡ length os'
  length-perm os os' p =
      length-fold os
      ∙ Perm.foldr-eq ℕ_set (λ o n. suc n) (λ o o' n. refl) p 0
      ∙ sym (length-fold os')

  abbrev pub source_with : String → Bool → List Object → CacheSource Object
  source_with kind synced os = record { kind = kind; store = os; has_synced = synced }

  collected :
      (os : List Object) → length os ≤ max_names → collect_names key_func os [] ≡ keys key_func os
  collected os few =
      collect_names-take key_func os [] max_names refl
      ∙ take-whole max_names (keys key_func os) (omega (arith, few, length-keys key_func os))

  resource_state-perm :
      (kind : String) (synced : Bool) (os os' : List Object)
      → length os ≤ max_names
      → Perm os os'
      → resource_state key_func (source_with kind synced os)
        ≡ resource_state key_func (source_with kind synced os')
  unfolding resource_state
  resource_state-perm kind synced os os' few p =
      let same_size = length-perm os os' p in
      let names : sort_strings (collect_names key_func os [])
          ≡ sort_strings (collect_names key_func os' []) =
        ap sort_strings (collected os few)
        ∙ sort-keys-perm os os' p
        ∙ sym (ap sort_strings (collected os' (omega (arith, few, same_size)))) in
      rw (names, same_size) refl

  ResourceState-set : IsSet ResourceState
  ResourceState-set = hlevel (Names-set, ℕ_set, Bool-set, hedberg String-discrete)

  -- A store that the page shows whole, and the store as what it holds, in no order.
  abbrev Store : Type 0
  Store = (os : List Object) × (length os ≤ max_names)

  abbrev pub Holding : Type 0
  Holding = Quot (λ (a b : Store). Perm a.0 b.0)

  pub state_of : String → Bool → Holding → ResourceState
  state_of kind synced =
      Quot.lift ResourceState-set
        (λ store. resource_state key_func (source_with kind synced store.0))
        (λ a b p. resource_state-perm kind synced a.0 b.0 a.1 p)

  -- What the page says of a store of at most 25 objects is a function of what the store holds: every
  -- order in which List may give these objects leads to the same entry.
  pub resource_state-Holding :
      (kind : String) (synced : Bool) (os os' : List Object) (few : length os ≤ max_names)
      → Perm os os'
      → state_of kind synced (Quot.mk (os, few))
        ≡ resource_state key_func (source_with kind synced os')
  unfolding state_of
  resource_state-Holding kind synced os os' few p = resource_state-perm kind synced os os' few p
