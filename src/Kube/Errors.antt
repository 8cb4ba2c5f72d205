-- ===== src/Kube/Errors.antt =====
-- Go's error values, as the program makes them: fmt.Errorf with and without %w, the InProgressError
-- of internal/action/executor.go, and an error of the API server's client.
use k8s_ops_platform.Prelude.{
  ◌≡◌, ◌⊎◌, inl, inr, refl, String, Option, none, some, Bool, true, false,
}
use Prim.Native.String.{◌++◌}

pub data Error (A : Type 0) : Type 0 where
  errorf : String → Error A
  wrapf : String → Error A → Error A
  in_progress : String → Error A
  api : A → Error A

pub data Result (E A : Type 0) : Type 0 where
  ok : A → Result E A
  err : E → Result E A

-- The method Error. A wrapping format is "prefix: %w".
unfoldable pub text : {A : Type 0} → (A → String) → Error A → String
text show (errorf s) = s
text show (wrapf prefix e) = prefix ++ (": " ++ text show e)
text show (in_progress s) = s
text show (api e) = show e

-- errors.As with an *InProgressError as the target: it looks through %w. The client's own errors
-- never are one.
unfoldable pub is_in_progress : {A : Type 0} → Error A → Bool
is_in_progress (errorf s) = false
is_in_progress (wrapf prefix e) = is_in_progress e
is_in_progress (in_progress s) = true
is_in_progress (api e) = false

abbrev pub as_error : {A : Type 0} → Option A → Option (Error A)
as_error none = none
as_error (some e) = some (api e)

pub Result-cases :
    {E A : Type 0} (x : Result E A) → ((e : E) × (x ≡ err e)) ⊎ ((a : A) × (x ≡ ok a))
Result-cases (err e) = inl (e, refl)
Result-cases (ok a) = inr (a, refl)
