-- ===== src/Diagnosis/Pods/Laws.antt =====
-- When the pod detector reports, and that it reports a reason once.
pub mod Once
pub mod Causes
use k8s_ops_platform.Prelude.{
  ℕ, suc, String, List, [], ◌∷◌, ◌++◌, Bool, true, false, ◌+◌, ◌≡◌, refl, arith, ◌==◌, ◌||◌, eq_iff,
  if◌then◌else◌,
}
use k8s_ops_platform.Diagnosis.{DiagnosisResult}
use k8s_ops_platform.Diagnosis.Pods.{has}

-- How often a text stands in a list.
abbrev pub times : String → List String → ℕ
times x [] = 0
times x (y ∷ ys) = let rest = times x ys in if y == x then suc rest else rest

abbrev pub reasons : List DiagnosisResult → List String
reasons [] = []
reasons (r ∷ rs) = r.reason ∷ reasons rs

pub reasons-append : (xs ys : List DiagnosisResult) → reasons (xs ++ ys) ≡ reasons xs ++ reasons ys
reasons-append [] ys = refl
reasons-append (x ∷ xs) ys = rw (reasons-append xs ys)

pub times-append : (x : String) (ys zs : List String) → times x (ys ++ zs) ≡ times x ys + times x zs
times-append x [] zs = omega arith
times-append x (y ∷ ys) zs = ground (arith, times-append x ys zs)

pub has-append :
    (x : String) (ys : List String) (y : String) → has x (ys ++ y ∷ []) ≡ (has x ys || y == x)
has-append x [] y = ground arith
has-append x (z ∷ ys) y = ground (arith, has-append x ys y)

pub has-append_all : (x : String) (ys zs : List String) → has x (ys ++ zs) ≡ (has x ys || has x zs)
has-append_all x [] zs = refl
has-append_all x (y ∷ ys) zs = ground (arith, has-append_all x ys zs)

pub times_of_absent : (x : String) (ys : List String) → has x ys ≡ false → times x ys ≡ 0
times_of_absent x [] h = refl
times_of_absent x (y ∷ ys) h = ground (arith, times_of_absent x ys)
