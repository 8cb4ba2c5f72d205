-- ===== src/Agent/StatePage/Order.antt =====
-- The order of the names on the /state page: the order of texts, and what sorting makes of it.
use Prim.Native.Nat.{Ordering, compare as compare_ℕ}
use Prim.Native.Nat.compare as compare_ℕ
use Prim.Native.Char.{code}
use Prim.Native.String.{compare, then}
use Prim.Native.String.compare
use k8s_ops_platform.Prelude.{
  ℕ, zero, suc, String, List, [], ◌∷◌, Bool, true, false, ◌≡◌, refl, ap, sym, ◌∙◌, subst, if-cases,
}
use k8s_ops_platform.Agent.StatePage.{comes_after, insert_sorted, sort_strings}

abbrev pub flip : Ordering → Ordering
flip Ordering.lt = Ordering.gt
flip Ordering.eq = Ordering.eq
flip Ordering.gt = Ordering.lt

flip-then : (a b : Ordering) → then (flip a) (flip b) ≡ flip (then a b)
flip-then Ordering.lt b = refl
flip-then Ordering.eq b = refl
flip-then Ordering.gt b = refl

-- Comparing the other way round.
compare_ℕ-flip : (m n : ℕ) → compare_ℕ n m ≡ flip (compare_ℕ m n)
compare_ℕ-flip zero zero = compare_ℕ.zero-zero ∙ ap flip (sym compare_ℕ.zero-zero)
compare_ℕ-flip zero (suc n) = compare_ℕ.suc-zero n ∙ ap flip (sym (compare_ℕ.zero-suc n))
compare_ℕ-flip (suc m) zero = compare_ℕ.zero-suc m ∙ ap flip (sym (compare_ℕ.suc-zero m))
compare_ℕ-flip (suc m) (suc n) =
    compare_ℕ.suc-suc n m ∙ compare_ℕ-flip m n ∙ ap flip (sym (compare_ℕ.suc-suc m n))

pub compare-flip : (s t : String) → compare t s ≡ flip (compare s t)
compare-flip String.[] String.[] = compare.nil-nil ∙ ap flip (sym compare.nil-nil)
compare-flip String.[] (String.◌∷◌ d t) =
    compare.cons-nil d t ∙ ap flip (sym (compare.nil-cons d t))
compare-flip (String.◌∷◌ c s) String.[] =
    compare.nil-cons c s ∙ ap flip (sym (compare.cons-nil c s))
compare-flip (String.◌∷◌ c s) (String.◌∷◌ d t) =
    compare.cons-cons d c t s
    ∙ ap (λ o. then o (compare t s)) (compare_ℕ-flip (code c) (code d))
    ∙ ap (then (flip (compare_ℕ (code c) (code d)))) (compare-flip s t)
    ∙ flip-then (compare_ℕ (code c) (code d)) (compare s t)
    ∙ ap flip (sym (compare.cons-cons c d s t))

abbrev pub is_after : Ordering → Bool
is_after o = elim o [ Ordering.gt ↦ true | _ ↦ false ]

is_after-flip : (o : Ordering) → is_after o ≡ true → is_after (flip o) ≡ false
is_after-flip Ordering.lt h = sym h
is_after-flip Ordering.eq h = refl
is_after-flip Ordering.gt h = refl

pub comes_after-flip : (x y : String) → comes_after x y ≡ true → comes_after y x ≡ false
comes_after-flip x y h =
    subst (λ o. is_after o ≡ false) (sym (compare-flip x y)) (is_after-flip (compare x y) h)

-- No name comes after the next one.
abbrev IsBelow : String → List String → Type 0
IsBelow x [] = Unit
IsBelow x (y ∷ ys) = comes_after x y ≡ false

abbrev pub IsSorted : List String → Type 0
IsSorted [] = Unit
IsSorted (x ∷ xs) = IsBelow x xs × IsSorted xs

IsBelow-insert_sorted :
    (y x : String) (ys : List String)
    → IsBelow y ys
    → comes_after y x ≡ false
    → IsBelow y (insert_sorted x ys)
unfolding insert_sorted
IsBelow-insert_sorted y x [] h k = k
IsBelow-insert_sorted y x (z ∷ zs) h k = if-cases (IsBelow y) (comes_after x z) (λ _. h) (λ _. k)

insert_sorted-IsSorted :
    (x : String) (ys : List String) → IsSorted ys → IsSorted (insert_sorted x ys)
unfolding insert_sorted
insert_sorted-IsSorted x [] sorted = (tt, tt)
insert_sorted-IsSorted x (y ∷ ys) (below, sorted) =
    if-cases IsSorted (comes_after x y)
      (λ after. (
        IsBelow-insert_sorted y x ys below (comes_after-flip x y after),
        insert_sorted-IsSorted x ys sorted,
      ))
      (λ before. (before, (below, sorted)))

pub sort_strings-IsSorted : (xs : List String) → IsSorted (sort_strings xs)
unfolding sort_strings
sort_strings-IsSorted [] = tt
sort_strings-IsSorted (x ∷ xs) = insert_sorted-IsSorted x _ (sort_strings-IsSorted xs)
