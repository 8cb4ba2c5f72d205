-- ===== src/Metrics/Registry.antt =====
-- Register of internal/metrics/metrics.go. The registry, prometheus.Registerer, is a parameter.
use k8s_ops_platform.Prelude.{
  String, Option, none, some, List, [], ◌∷◌, Bool, true, false, ◌≡◌, ◌⊎◌, inl, inr, refl, sym,
  subst, All, Bool-cases, if◌then◌else◌,
}

-- The collectors of the package, by the names of their metrics.
abbrev pub collectors : List String
collectors =
    "k8s_ops_diagnosis_total" ∷ "k8s_ops_active_diagnosis" ∷ "k8s_ops_action_total"
    ∷ "k8s_ops_action_failed_total" ∷ "k8s_ops_action_duration_seconds"
    ∷ "k8s_ops_informer_cache_objects" ∷ []

-- A registry in a world, and which of its errors is an AlreadyRegisteredError.
pub record Registerer : Type 1 where
  pub World : Type 0
  pub Failure : Type 0
  pub already_registered : Failure → Bool
  pub register : String → World → Option Failure × World

module _ (reg : Registerer) where
  open reg use {World, Failure, already_registered}

  -- The error that ends the loop.
  abbrev pub is_fatal : Option Failure → Bool
  is_fatal none = false
  is_fatal (some e) = if already_registered e then false else true

  -- The loop over the collectors.
  unfoldable pub register_all : List String → World → Option Failure × World
  register_all [] w = (none, w)
  register_all (c ∷ cs) w =
      let (e, w') = reg.register c w in
      let rest = register_all cs w' in if is_fatal e then (e, w') else rest

  -- Register
  unfoldable pub register : World → Option Failure × World
  register w = register_all collectors w

-- What the Prometheus registry documents: a collector that was taken, or is found to be registered,
-- is registered from then on, and to register it again is an AlreadyRegisteredError that changes
-- nothing.
pub record KeepsCollectors (reg : Registerer) : Type 1 where
  pub IsIn : String → reg.World → Type 0
  pub taken :
      (c : String) (w : reg.World) → (reg.register c w).0 ≡ none → IsIn c (reg.register c w).1
  pub found :
      (c : String) (w : reg.World) (e : reg.Failure)
      → (reg.register c w).0 ≡ some e
      → reg.already_registered e ≡ true
      → IsIn c (reg.register c w).1
  pub kept : (c d : String) (w : reg.World) → IsIn c w → IsIn c (reg.register d w).1
  pub again :
      (c : String) (w : reg.World)
      → IsIn c w
      → (e : reg.Failure) × (reg.already_registered e ≡ true) × (reg.register c w ≡ (some e, w))

module _ (reg : Registerer) (keeps : KeepsCollectors reg) where
  abbrev AllIn : List String → reg.World → Type 0
  AllIn cs w = All (λ c. keeps.IsIn c w) cs

  register_all-kept :
      (cs : List String) (c : String) (w : reg.World)
      → keeps.IsIn c w
      → keeps.IsIn c (register_all reg cs w).1
  unfolding register_all
  register_all-kept [] c w h = h
  register_all-kept (d ∷ cs) c w h = elim (Bool-cases (is_fatal reg (reg.register d w).0)) [
    | inl fatal ↦ rw (fatal, register_all) (keeps.kept c d w h)
    | inr fine ↦ rw (fine, register_all) (register_all-kept cs c _ (keeps.kept c d w h))
  ]

  -- A collector whose registration is no reason to stop is registered.
  settled :
      (c : String) (w : reg.World) (e : Option reg.Failure)
      → (reg.register c w).0 ≡ e
      → is_fatal reg e ≡ false
      → keeps.IsIn c (reg.register c w).1
  settled c w none known fine = keeps.taken c w known
  settled c w (some e) known fine = elim (Bool-cases (reg.already_registered e)) [
    | inl already ↦ keeps.found c w e known already
    | inr other ↦ absurd (cc (other, fine))
  ]

  -- Registering what is registered does nothing.
  register_all-same :
      (cs : List String) (w : reg.World) → AllIn cs w → register_all reg cs w ≡ (none, w)
  unfolding register_all
  register_all-same [] w h = refl
  register_all-same (c ∷ cs) w (h, hs) =
      let (e, already, same) = keeps.again c w h in
      rw (same, register_all) (rw (already, register_all) (register_all-same cs w hs))

  -- How the loop ends: all are registered, or there was an error that is fatal.
  abbrev Ends : List String → Option reg.Failure × reg.World → Type 0
  Ends cs out =
      ((out.0 ≡ none) × AllIn cs out.1)
      ⊎ ((e : reg.Failure) × (out.0 ≡ some e) × (reg.already_registered e ≡ false))

  fatal-error :
      (e : Option reg.Failure)
      → is_fatal reg e ≡ true
      → (f : reg.Failure) × (e ≡ some f) × (reg.already_registered f ≡ false)
  fatal-error none h = absurd (cc h)
  fatal-error (some f) h = elim (Bool-cases (reg.already_registered f)) [
    | inl already ↦ absurd (cc (already, h))
    | inr other ↦ (f, refl, other)
  ]

  register_all-continues :
      (c : String) (cs : List String) (w : reg.World)
      → is_fatal reg (reg.register c w).0 ≡ false
      → register_all reg (c ∷ cs) w ≡ register_all reg cs (reg.register c w).1
  unfolding register_all
  register_all-continues c cs w fine = rw (fine, register_all) refl

  register_all-Ends : (cs : List String) (w : reg.World) → Ends cs (register_all reg cs w)
  unfolding register_all
  register_all-Ends [] w = inl (refl, tt)
  register_all-Ends (c ∷ cs) w = elim (Bool-cases (is_fatal reg (reg.register c w).0)) [
    | inl fatal ↦ rw (fatal, register_all) (inr (fatal-error _ fatal))
    | inr fine ↦
        subst (Ends (c ∷ cs)) (sym (register_all-continues c cs w fine))
          (elim (register_all-Ends cs (reg.register c w).1) [
            | inl (none_left, hs) ↦
                inl (none_left, (register_all-kept cs c _ (settled c w _ refl fine), hs))
            | inr stopped ↦ inr stopped
          ])
  ]

  -- Register returns nil, and then every collector is registered, and a second call returns nil as well
  -- and changes nothing; or it returns an error that is no AlreadyRegisteredError. The registry keeps what it has taken, and answers a collector that it has
  -- with that error.
  pub register-again :
      (w : reg.World)
      → let (e, w') = register reg w in
        ((e ≡ none) × All (λ c. keeps.IsIn c w') collectors × (register reg w' ≡ (none, w')))
        ⊎ ((f : reg.Failure) × (e ≡ some f) × (reg.already_registered f ≡ false))
  unfolding register
  register-again w = elim (register_all-Ends collectors w) [
    | inl (e, hs) ↦ inl (e, hs, register_all-same collectors _ hs)
    | inr stopped ↦ inr stopped
  ]
