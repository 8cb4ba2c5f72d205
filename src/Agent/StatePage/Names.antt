-- ===== src/Agent/StatePage/Names.antt =====
-- Which names the /state page shows.
use k8s_ops_platform.Prelude.{
  ℕ, zero, suc, String, Option, none, some, List, [], ◌∷◌, ◌++◌, true, false, ◌+◌, ◌≤◌, ◌≡◌, inl,
  inr, refl, ap, sym, ◌∙◌, arith, ◌==◌, eqb, ltb, length, take, length-append, if◌then◌else◌,
  Option-cases,
}
use mathlib.Core.List.{append-nil, append_assoc}
use k8s_ops_platform.Agent.StatePage.{
  CacheSource, max_names, insert_sorted, sort_strings, collect_names, resource_state,
}

-- How often a name stands in a list.
abbrev pub times : String → List String → ℕ
times x [] = 0
times x (y ∷ ys) = let rest = times x ys in if y == x then suc rest else rest

times-insert_sorted :
    (x y : String) (ys : List String) → times x (insert_sorted y ys) ≡ times x (y ∷ ys)
unfolding insert_sorted
times-insert_sorted x y [] = refl
times-insert_sorted x y (z ∷ zs) = ground (arith, times-insert_sorted x y zs)

times-sort_strings : (x : String) (ys : List String) → times x (sort_strings ys) ≡ times x ys
unfolding sort_strings
times-sort_strings x [] = refl
times-sort_strings x (y ∷ ys) =
    ground (arith, times-sort_strings x ys, times-insert_sorted x y (sort_strings ys))

length-insert_sorted :
    (y : String) (ys : List String) → length (insert_sorted y ys) ≡ suc (length ys)
unfolding insert_sorted
length-insert_sorted y [] = refl
length-insert_sorted y (z ∷ zs) = ground (arith, length-insert_sorted y zs)

length-sort_strings : (ys : List String) → length (sort_strings ys) ≡ length ys
unfolding sort_strings
length-sort_strings [] = refl
length-sort_strings (y ∷ ys) =
    length-insert_sorted y (sort_strings ys) ∙ ap suc (length-sort_strings ys)

pub length-take :
    (n : ℕ) (xs : List String) → (length (take n xs) ≤ n) × (length (take n xs) ≤ length xs)
length-take zero xs = (omega arith, omega arith)
length-take (suc n) [] = (omega arith, omega arith)
length-take (suc n) (x ∷ xs) = let (p, q) = length-take n xs in (omega arith, omega arith)

le_of_ltb : (a b c : ℕ) → ltb a b ≡ false → a ≡ c → b ≤ c
le_of_ltb a b c h e = ground arith

take-nil : (n : ℕ) → take {A = String} n [] ≡ []
take-nil zero = refl
take-nil (suc n) = refl

pub take-all : (n : ℕ) (xs : List String) → length xs ≤ length (take n xs) → take n xs ≡ xs
take-all zero [] h = refl
take-all zero (x ∷ xs) h = ground arith
take-all (suc n) [] h = refl
take-all (suc n) (x ∷ xs) h = ap (◌∷◌ x) (take-all n xs (omega arith))

module _ {Object : Type 0} (key_func : Object → Option String) where
  abbrev pub key_list : Option String → List String → List String
  key_list none ks = ks
  key_list (some k) ks = k ∷ ks

  -- The keys of the objects that have one.
  abbrev pub keys : List Object → List String
  keys [] = []
  keys (o ∷ os) = key_list (key_func o) (keys os)

  pub length-keys : (os : List Object) → length (keys os) ≤ length os
  length-keys [] = omega arith
  length-keys (o ∷ os) = ground (arith, length-keys os)

  pub collect_names-take :
      (os : List Object) (names : List String) (n : ℕ)
      → length names + n ≡ max_names
      → collect_names key_func os names ≡ names ++ take n (keys os)
  unfolding collect_names
  collect_names-take [] names n h = sym (ap (λ ks. names ++ ks) (take-nil n) ∙ append-nil names)
  collect_names-take (o ∷ os) names zero h =
      let full : eqb (length names) max_names ≡ true = ground arith in
      rw (full, collect_names) (sym (append-nil names))
  collect_names-take (o ∷ os) names (suc n) h =
      let room : eqb (length names) max_names ≡ false = ground arith in
      rw (room, collect_names)
        (elim (Option-cases (key_func o)) [
          | inl e ↦ rw (e, collect_names) (collect_names-take os names (suc n) h)
          | inr (k, e) ↦
              rw (e, collect_names)
                (collect_names-take os (names ++ k ∷ []) n
                    (omega (arith, length-append names (k ∷ []), h))
                  ∙ append_assoc names (k ∷ []) (take n (keys os)))
        ])

  -- The names shown are those of the first 25 objects that have a key, in some order, and at most 25.
  -- If the page does not say that they are truncated, every object has a key and they are all shown.
  resource_state-names :
      (source : CacheSource Object)
      → let state = resource_state key_func source in
        let all_keys = keys source.store in
        (length state.names ≤ max_names)
        × ((x : String) → times x state.names ≡ times x (take max_names all_keys))
        × (state.truncated ≡ false
            → (length all_keys ≡ length source.store)
              × ((x : String) → times x state.names ≡ times x all_keys))
  unfolding resource_state
  resource_state-names source =
      let all_keys = keys source.store in
      let collected : collect_names key_func source.store [] ≡ take max_names all_keys =
        collect_names-take source.store [] max_names refl in
      let size : length (sort_strings (collect_names key_func source.store []))
          ≡ length (take max_names all_keys) =
        length-sort_strings _ ∙ ap length collected in
      let told : (x : String)
          → times x (sort_strings (collect_names key_func source.store []))
            ≡ times x (take max_names all_keys) =
        λ x. times-sort_strings x _ ∙ ap (times x) collected in
      let (few, fewer) = length-take max_names all_keys in
      let most = length-keys source.store in
      (
        omega (arith, size, few),
        told,
        λ whole.
            let enough : length source.store ≤ length (take max_names all_keys) =
              le_of_ltb _ _ _ whole size in
            (
              omega (arith, enough, fewer, most),
              λ x.
                  told x ∙ ap (times x) (take-all max_names all_keys (omega (arith, most, enough))),
            ),
      )
