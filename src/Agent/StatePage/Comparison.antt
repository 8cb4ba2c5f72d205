-- ===== src/Agent/StatePage/Comparison.antt =====
-- The order of texts is total: what compare says of three texts fits together, and insertions in the
-- order of the texts commute.
use Prim.Native.Nat.{Ordering, compare as compare_ℕ}
use Prim.Native.Nat.compare as compare_ℕ
use Prim.Native.Char.{code}
use Prim.Native.String.{compare, then}
use Prim.Native.String.compare
use text.Mathlib.TextEquality.{path_by_compare}
use k8s_ops_platform.Prelude.{ℕ, zero, suc, String, true, false, ◌≡◌, refl, ap, sym, ◌∙◌, subst}
use k8s_ops_platform.Agent.StatePage.{comes_after}
use k8s_ops_platform.Agent.StatePage.Order.{flip, compare-flip, is_after}

-- The third comparison, as far as the first two settle it: of the first with the second, of the second
-- with the third, and of the first with the third.
abbrev Joins : Ordering → Ordering → Ordering → Type 0
Joins Ordering.eq o p = p ≡ o
Joins Ordering.lt Ordering.gt p = Unit
Joins Ordering.lt Ordering.lt p = p ≡ Ordering.lt
Joins Ordering.lt Ordering.eq p = p ≡ Ordering.lt
Joins Ordering.gt Ordering.lt p = Unit
Joins Ordering.gt Ordering.gt p = p ≡ Ordering.gt
Joins Ordering.gt Ordering.eq p = p ≡ Ordering.gt

Joins-lt : (o : Ordering) → Joins Ordering.lt o Ordering.lt
Joins-lt Ordering.lt = refl
Joins-lt Ordering.eq = refl
Joins-lt Ordering.gt = tt

Joins-gt : (o : Ordering) → Joins o Ordering.gt Ordering.gt
Joins-gt Ordering.lt = tt
Joins-gt Ordering.eq = refl
Joins-gt Ordering.gt = refl

Joins-to_lt : (o : Ordering) → Joins o Ordering.lt Ordering.lt
Joins-to_lt Ordering.lt = refl
Joins-to_lt Ordering.eq = refl
Joins-to_lt Ordering.gt = tt

Joins-of_gt : (o : Ordering) → Joins Ordering.gt o Ordering.gt
Joins-of_gt Ordering.lt = tt
Joins-of_gt Ordering.eq = refl
Joins-of_gt Ordering.gt = refl

-- Three comparisons by what they come to.
Joins-at : {x y z a b c : Ordering} → x ≡ a → y ≡ b → z ≡ c → Joins a b c → Joins x y z
Joins-at {x} {y} {z} {a} {b} {c} p q r j =
    subst (λ v. Joins v y z) (sym p)
      (subst (λ v. Joins a v z) (sym q) (subst (λ v. Joins a b v) (sym r) j))

compare_ℕ-Joins : (a b c : ℕ) → Joins (compare_ℕ a b) (compare_ℕ b c) (compare_ℕ a c)
compare_ℕ-Joins zero zero c = Joins-at compare_ℕ.zero-zero refl refl refl
compare_ℕ-Joins zero (suc b) zero = Joins-at (compare_ℕ.zero-suc b) (compare_ℕ.suc-zero b) refl tt
compare_ℕ-Joins zero (suc b) (suc c) =
    Joins-at (compare_ℕ.zero-suc b) refl (compare_ℕ.zero-suc c)
      (Joins-lt (compare_ℕ (suc b) (suc c)))
compare_ℕ-Joins (suc a) zero zero =
    Joins-at (compare_ℕ.suc-zero a) compare_ℕ.zero-zero (compare_ℕ.suc-zero a) refl
compare_ℕ-Joins (suc a) zero (suc c) =
    Joins-at (compare_ℕ.suc-zero a) (compare_ℕ.zero-suc c) refl tt
compare_ℕ-Joins (suc a) (suc b) zero =
    Joins-at refl (compare_ℕ.suc-zero b) (compare_ℕ.suc-zero a)
      (Joins-gt (compare_ℕ (suc a) (suc b)))
compare_ℕ-Joins (suc a) (suc b) (suc c) =
    Joins-at (compare_ℕ.suc-suc a b) (compare_ℕ.suc-suc b c) (compare_ℕ.suc-suc a c)
      (compare_ℕ-Joins a b c)

then-Joins :
    (a b c o p q : Ordering) → Joins a b c → Joins o p q → Joins (then a o) (then b p) (then c q)
then-Joins Ordering.eq Ordering.eq c o p q e rest = subst (λ x. Joins o p (then x q)) (sym e) rest
then-Joins Ordering.eq Ordering.lt c o p q e rest =
    subst (λ x. Joins o Ordering.lt (then x q)) (sym e) (Joins-to_lt o)
then-Joins Ordering.eq Ordering.gt c o p q e rest =
    subst (λ x. Joins o Ordering.gt (then x q)) (sym e) (Joins-gt o)
then-Joins Ordering.lt Ordering.gt c o p q e rest = tt
then-Joins Ordering.lt Ordering.lt c o p q e rest = ap (λ x. then x q) e
then-Joins Ordering.lt Ordering.eq c o p q e rest =
    subst (λ x. Joins Ordering.lt p (then x q)) (sym e) (Joins-lt p)
then-Joins Ordering.gt Ordering.lt c o p q e rest = tt
then-Joins Ordering.gt Ordering.gt c o p q e rest = ap (λ x. then x q) e
then-Joins Ordering.gt Ordering.eq c o p q e rest =
    subst (λ x. Joins Ordering.gt p (then x q)) (sym e) (Joins-of_gt p)

compare-Joins : (s t u : String) → Joins (compare s t) (compare t u) (compare s u)
compare-Joins String.[] String.[] u = Joins-at compare.nil-nil refl refl refl
compare-Joins String.[] (String.◌∷◌ d t) String.[] =
    Joins-at (compare.nil-cons d t) (compare.cons-nil d t) refl tt
compare-Joins String.[] (String.◌∷◌ d t) (String.◌∷◌ e u) =
    Joins-at (compare.nil-cons d t) refl (compare.nil-cons e u)
      (Joins-lt (compare (String.◌∷◌ d t) (String.◌∷◌ e u)))
compare-Joins (String.◌∷◌ c s) String.[] String.[] =
    Joins-at (compare.cons-nil c s) compare.nil-nil (compare.cons-nil c s) refl
compare-Joins (String.◌∷◌ c s) String.[] (String.◌∷◌ e u) =
    Joins-at (compare.cons-nil c s) (compare.nil-cons e u) refl tt
compare-Joins (String.◌∷◌ c s) (String.◌∷◌ d t) String.[] =
    Joins-at refl (compare.cons-nil d t) (compare.cons-nil c s)
      (Joins-gt (compare (String.◌∷◌ c s) (String.◌∷◌ d t)))
compare-Joins (String.◌∷◌ c s) (String.◌∷◌ d t) (String.◌∷◌ e u) =
    Joins-at (compare.cons-cons c d s t) (compare.cons-cons d e t u) (compare.cons-cons c e s u) (
      then-Joins (compare_ℕ (code c) (code d)) (compare_ℕ (code d) (code e))
        (compare_ℕ (code c) (code e)) (compare s t) (compare t u) (compare s u)
        (compare_ℕ-Joins (code c) (code d) (code e)) (compare-Joins s t u))

-- A text that comes after one that another does not come after.
gt-Joins :
    (a c b : Ordering) → Joins a b c → is_after c ≡ true → is_after b ≡ false → is_after a ≡ true
gt-Joins Ordering.gt c b j after before = refl
gt-Joins Ordering.eq c b j after before = sym before ∙ ap is_after (sym j) ∙ after
gt-Joins Ordering.lt c Ordering.gt j after before = absurd (cc before)
gt-Joins Ordering.lt c Ordering.lt j after before = ap is_after (sym j) ∙ after
gt-Joins Ordering.lt c Ordering.eq j after before = ap is_after (sym j) ∙ after

pub comes_after_trans :
    (x y z : String) → comes_after y z ≡ true → comes_after x z ≡ false → comes_after y x ≡ true
comes_after_trans x y z after before =
    gt-Joins (compare y x) (compare y z) (compare x z) (compare-Joins y x z) after before

neither-eq : (o : Ordering) → is_after o ≡ false → is_after (flip o) ≡ false → o ≡ Ordering.eq
neither-eq Ordering.lt h h' = absurd (cc h')
neither-eq Ordering.eq h h' = refl
neither-eq Ordering.gt h h' = absurd (cc h)

pub comes_after_antisym : (x y : String) → comes_after x y ≡ false → comes_after y x ≡ false → x ≡ y
comes_after_antisym x y h h' =
    path_by_compare x y
      (neither-eq (compare x y) h (subst (λ o. is_after o ≡ false) (compare-flip x y) h'))
