-- ===== src/Metrics/Keys.antt =====
-- The keys of the tracker's map tell resources apart.
use Prim.Native.Char.{Char, code}
use Prim.Native.String.{◌++◌}
use Prim.Native.String.append as append
use k8s_ops_platform.Prelude.{
  String, Bool, true, not, ◌&&◌, ◌≡◌, ◌≢◌, refl, ap, sym, ◌∙◌, arith, eqb,
}
use k8s_ops_platform.Metrics.{nul, resource_key}

-- No character of a text is the separator; names of the API server have none.
abbrev pub is_plain : String → Bool
is_plain String.[] = true
is_plain (String.◌∷◌ c s) = not (eqb (code c) 0) && is_plain s

abbrev head_or : Char → String → Char
head_or c String.[] = c
head_or c (String.◌∷◌ d s) = d

abbrev tail : String → String
tail String.[] = String.[]
tail (String.◌∷◌ c s) = s

-- A separator cannot be the first character of a plain text.
plain_head : (c d : Char) (s : String) → is_plain (String.◌∷◌ c s) ≡ true → code d ≡ 0 → c ≢ d
plain_head c d s p z e = ground (arith, ap code e)

plain_tail : (c : Char) (s : String) → is_plain (String.◌∷◌ c s) ≡ true → is_plain s ≡ true
plain_tail c s p = ground arith

abbrev zero_char : Char
zero_char = "\0"

nil_nul : (s : String) → String.[] ++ (nul ++ s) ≡ String.◌∷◌ zero_char s
nil_nul s =
    append.nil (nul ++ s)
    ∙ (append.cons zero_char String.[] s ∙ ap (String.◌∷◌ zero_char) (append.nil s))

pub cons_cat : (c : Char) (a u : String) → String.◌∷◌ c a ++ u ≡ String.◌∷◌ c (a ++ u)
cons_cat c a u = append.cons c a u

pub split_at_nul :
    (a b s t : String)
    → is_plain a ≡ true
    → is_plain b ≡ true
    → a ++ (nul ++ s) ≡ b ++ (nul ++ t)
    → (a ≡ b) × (s ≡ t)
split_at_nul String.[] String.[] s t p q e = (refl, ap tail (sym (nil_nul s) ∙ (e ∙ nil_nul t)))
split_at_nul String.[] (String.◌∷◌ d b) s t p q e =
    let e' = sym (nil_nul s) ∙ (e ∙ cons_cat d b _) in
    absurd (plain_head d zero_char b q refl (ap (head_or d) (sym e')))
split_at_nul (String.◌∷◌ c a) String.[] s t p q e =
    let e' = sym (cons_cat c a _) ∙ (e ∙ nil_nul t) in
    absurd (plain_head c zero_char a p refl (ap (head_or c) e'))
split_at_nul (String.◌∷◌ c a) (String.◌∷◌ d b) s t p q e =
    let e' = sym (cons_cat c a _) ∙ (e ∙ cons_cat d b _) in
    let rest = split_at_nul a b s t (plain_tail c a p) (plain_tail d b q) (ap tail e') in
    let first : c ≡ d = ap (head_or c) e' in (rw (first, rest.0) refl, rest.1)

-- Two resources with the same key are the same, when the names of the kinds and the namespaces have no
-- separator in them.
resource_key-eq :
    (kind kind' namespace namespace' name name' : String)
    → is_plain kind ≡ true
    → is_plain kind' ≡ true
    → is_plain namespace ≡ true
    → is_plain namespace' ≡ true
    → resource_key kind namespace name ≡ resource_key kind' namespace' name'
    → (kind ≡ kind') × (namespace ≡ namespace') × (name ≡ name')
resource_key-eq kind kind' namespace namespace' name name' p p' q q' e =
    let (same_kind, rest) = split_at_nul kind kind' _ _ p p' e in
    let (same_namespace, same_name) = split_at_nul namespace namespace' name name' q q' rest in
    (same_kind, same_namespace, same_name)
