-- ===== src/Api/Group.antt =====
-- The API group: api/v1alpha1/groupversion_info.go, and the registration of the types in action_types.go.
use k8s_ops_platform.Prelude.{String, Option, List, [], ◌∷◌}

-- schema.GroupVersion
pub record GroupVersion : Type 0 where
  pub group : String
  pub version : String

abbrev pub group_version : GroupVersion
group_version = record { group = "ops.example.io"; version = "v1alpha1" }

-- The schemes of apimachinery and the builder of controller-runtime, which takes the names of the types.
pub record SchemeLibrary : Type 1 where
  pub Scheme : Type 0
  pub Builder : Type 0
  pub Failure : Type 0
  pub new_scheme : Scheme
  pub new_builder : GroupVersion → Builder
  pub register : List String → Builder → Builder
  pub add_to_scheme : Builder → Scheme → Option Failure × Scheme

module _ (lib : SchemeLibrary) where
  -- SchemeBuilder, as init leaves it.
  unfoldable pub scheme_builder : lib.Builder
  scheme_builder = lib.register ("Action" ∷ "ActionList" ∷ []) (lib.new_builder group_version)

  -- AddToScheme
  unfoldable pub add_to_scheme : lib.Scheme → Option lib.Failure × lib.Scheme
  add_to_scheme = lib.add_to_scheme scheme_builder
