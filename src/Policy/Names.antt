-- ===== src/Policy/Names.antt =====
-- What the name of a created Action tells of its target.
use Prim.Native.Char.{Char, code}
use Prim.Native.String.{char_at, ◌++◌}
use Prim.Native.String.append as append
use k8s_ops_platform.Prelude.{
  ℕ, zero, suc, String, Option, none, some, List, [], ◌∷◌, Bool, true, inl, inr, eqb, ◌&&◌,
  Bool-cases, ◌+◌, ◌-◌, ◌*◌, ◌/◌, ◌%◌, ◌<◌, ◌≡◌, refl, ap, sym, ◌∙◌, arith, ltb, take, All,
  if◌then◌else◌,
}
use k8s_ops_platform.Diagnosis.{DiagnosisResult}
use k8s_ops_platform.Policy.{Config, hex, target_text, target_hash, to_lower, new_action}
use k8s_ops_platform.Metrics.Keys.{is_plain, split_at_nul, cons_cat}

-- A reader of hexadecimal digits in lower case.
abbrev digit_value : Char → ℕ
digit_value c = if ltb (code c) 58 then code c - 48 else code c - 87

abbrev byte_and_rest : ℕ → Option (List ℕ) → Option (List ℕ)
byte_and_rest b none = none
byte_and_rest b (some bs) = some (b ∷ bs)

unfoldable pub unhex : String → Option (List ℕ)
unhex String.[] = some []
unhex (String.◌∷◌ c String.[]) = none
unhex (String.◌∷◌ c (String.◌∷◌ d s)) = byte_and_rest (digit_value c * 16 + digit_value d) (unhex s)

-- A test on the numbers below a bound, one by one.
abbrev all_below : (ℕ → Bool) → ℕ → Bool
all_below p zero = true
all_below p (suc m) = p m && all_below p m

all_below_lem : (p : ℕ → Bool) (m : ℕ) → all_below p m ≡ true → (n : ℕ) → n < m → p n ≡ true
all_below_lem p zero h n less = absurd (omega arith)
all_below_lem p (suc m) h n less = elim (Bool-cases (eqb n m)) [
  | inl same ↦ let e : n ≡ m = ground arith in rw e (ground arith)
  | inr other ↦ all_below_lem p m (ground arith) n (ground arith)
]

digit_value-hex_digit : (n : ℕ) → n < 16 → digit_value (char_at "0123456789abcdef" n) ≡ n
digit_value-hex_digit n h =
    let reads =
      all_below_lem (λ m. eqb (digit_value (char_at "0123456789abcdef" m)) m) 16 refl n h in
    ground arith

two_digits : (b : ℕ) → b < 256 → (b / 16 < 16) × (b % 16 < 16) × (b / 16 * 16 + b % 16 ≡ b)
two_digits b h = (omega arith, omega arith, omega arith)

unhex-hex : (bs : List ℕ) → All (λ b. b < 256) bs → unhex (hex bs) ≡ some bs
unfolding unhex hex
unhex-hex [] h = refl
unhex-hex (b ∷ bs) (h, hs) =
    let (high, low, whole) = two_digits b h in
    rw
      (
        digit_value-hex_digit (b / 16) high,
        digit_value-hex_digit (b % 16) low,
        whole,
        unhex-hex bs hs,
      )
      refl

All-take : (P : ℕ → Type 0) (n : ℕ) (xs : List ℕ) → All P xs → All P (take n xs)
All-take P zero xs h = tt
All-take P (suc n) [] h = tt
All-take P (suc n) (x ∷ xs) (h, hs) = (h, All-take P n xs hs)

abbrev tail : String → String
tail String.[] = String.[]
tail (String.◌∷◌ c s) = s

cancel_prefix : (a s t : String) → a ++ s ≡ a ++ t → s ≡ t
cancel_prefix String.[] s t e = sym (append.nil s) ∙ e ∙ append.nil t
cancel_prefix (String.◌∷◌ c a) s t e =
    cancel_prefix a s t (ap tail (sym (cons_cat c a s) ∙ e ∙ cons_cat c a t))

-- No part of a report that goes into the hash has a separator in it.
pub record HasPlainParts (r : DiagnosisResult) : Type 0 where
  pub kind : is_plain r.resource_kind ≡ true
  pub namespace : is_plain r.namespace ≡ true
  pub name : is_plain r.name ≡ true
  pub reason : is_plain r.reason ≡ true

some_inj : {xs ys : List ℕ} → Path (Option (List ℕ)) (some xs) (some ys) → xs ≡ ys
some_inj e = cc e

module _ (sha256 : String → List ℕ) (bytes : (s : String) → All (λ b. b < 256) (sha256 s)) where
  -- The hash in the name and in the label of an Action, read as hexadecimal digits, is the first eight
  -- bytes of the SHA-256 of the target, when SHA-256 gives bytes.
  target_hash-unhex :
      (r : DiagnosisResult) (type : String)
      → unhex (target_hash sha256 r type) ≡ some (take 8 (sha256 (target_text r type)))
  unfolding target_hash
  target_hash-unhex r type =
      unhex-hex (take 8 (sha256 (target_text r type)))
        (All-take (λ b. b < 256) 8 (sha256 (target_text r type)) (bytes (target_text r type)))

  same_text :
      (r r' : DiagnosisResult) (type : String)
      → HasPlainParts r
      → HasPlainParts r'
      → target_text r type ≡ target_text r' type
      → (r.resource_kind ≡ r'.resource_kind)
        × (r.namespace ≡ r'.namespace)
        × (r.name ≡ r'.name)
        × (r.reason ≡ r'.reason)
  same_text r r' type p p' e =
      let (kind, rest) = split_at_nul r.resource_kind r'.resource_kind _ _ p.kind p'.kind e in
      let (namespace, rest') =
        split_at_nul r.namespace r'.namespace _ _ p.namespace p'.namespace rest in
      let (name, rest'') = split_at_nul r.name r'.name _ _ p.name p'.name rest' in
      let (reason, types) = split_at_nul r.reason r'.reason type type p.reason p'.reason rest'' in
      (kind, namespace, name, reason)

  -- Two Actions of one type with the same name have the same target and the same reason, when the first
  -- eight bytes of SHA-256 tell the two targets apart and none of their parts has a separator in it: so
  -- the API server refuses an Action as a duplicate only if it is for the same target and reason.
  pub new_action-target :
      (c c' : Config) (r r' : DiagnosisResult) (type : String)
      → (take 8 (sha256 (target_text r type)) ≡ take 8 (sha256 (target_text r' type))
          → target_text r type ≡ target_text r' type)
      → HasPlainParts r
      → HasPlainParts r'
      → (new_action sha256 c r type).metadata.name ≡ (new_action sha256 c' r' type).metadata.name
      → (r.resource_kind ≡ r'.resource_kind)
        × (r.namespace ≡ r'.namespace)
        × (r.name ≡ r'.name)
        × (r.reason ≡ r'.reason)
  unfolding new_action
  new_action-target c c' r r' type apart p p' e =
      let h = target_hash sha256 r type in
      let h' = target_hash sha256 r' type in
      let hashes : h ≡ h' =
        cancel_prefix "-" h h'
          (cancel_prefix (to_lower type) _ _ (cancel_prefix "diagnosis-" _ _ e)) in
      let prefixes : Path (Option (List ℕ)) (some (take 8 (sha256 (target_text r type))))
          (some (take 8 (sha256 (target_text r' type)))) =
        sym (target_hash-unhex r type) ∙ ap unhex hashes ∙ target_hash-unhex r' type in
      same_text r r' type p p' (apart (some_inj prefixes))
