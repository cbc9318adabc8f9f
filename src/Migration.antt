-- ===== src/Migration.antt =====
-- tools/eks-assessment/src/migration_compare.py: what the migration gates read of a collection, the
-- mapping of resources, and parity. The children have the gates and the verdict.
pub mod Parity
pub mod Gates
pub mod Go
mod Examples
use Prim.Native.Char.{code}
use Prim.Native.String.{◌++◌ as text_append}
use k8s_lab_vmware.Prelude.{
  ℕ, String, List, [], ◌∷◌, Bool, not, ◌&&◌, Option, none, some, if◌then◌else◌, get_or, ◌==◌,
  or_text, split, nat_eq, any, mem, keep, Dict, lookup,
}

-- A kind, a namespace and a name.
pub record Ref : Type 0 where
  pub kind : String
  pub namespace : String
  pub name : String

abbrev pub ref : String → String → String → Ref
ref kind namespace name = record { kind = kind; namespace = namespace; name = name }

abbrev pub same_ref : Ref → Ref → Bool
same_ref a b = a.kind == b.kind && a.namespace == b.namespace && a.name == b.name

-- A mapping that `normalize_mapping` has accepted.
pub record Mapping : Type 0 where
  pub namespaces : Dict String
  pub resources : Dict String
  pub allowed_differences : List String

abbrev pub mapped_namespace : String → Mapping → String
mapped_namespace namespace m = or_text (get_or (lookup namespace m.namespaces) "") namespace

abbrev pub resource_key : Ref → String
resource_key r =
    text_append r.kind (text_append "/" (text_append r.namespace (text_append "/" r.name)))

-- A value without a slash has one part.
abbrev pub ref_of_parts : Ref → (mapped_namespace value : String) → List String → Ref
ref_of_parts r mapped value (a ∷ b ∷ c ∷ []) = ref a b c
ref_of_parts r mapped value (a ∷ b ∷ []) = ref r.kind a b
ref_of_parts r mapped value _ = ref r.kind mapped value

unfoldable pub mapped_resource : Ref → Mapping → Ref
unfolding split
mapped_resource r m =
    let value = or_text (get_or (lookup (resource_key r) m.resources) "") r.name in
    ref_of_parts r (mapped_namespace r.namespace m) value (split value)

-- A dictionary with such keys.
abbrev pub RefDict : Type 0 → Type 0
RefDict V = List (Ref × V)

module _ {V : Type 0} where
  unfoldable pub lookup_ref : Ref → RefDict V → Option V
  lookup_ref r [] = none
  lookup_ref r ((r', v) ∷ d) = let rest = lookup_ref r d in if same_ref r' r then some v else rest

  unfoldable pub insert_ref : Ref → V → RefDict V → RefDict V
  insert_ref r v [] = (r, v) ∷ []
  insert_ref r v ((r', w) ∷ d) =
      let rest = insert_ref r v d in if same_ref r' r then (r', v) ∷ d else (r', w) ∷ rest

  unfoldable pub refs_from : RefDict V → RefDict V → RefDict V
  refs_from d [] = d
  refs_from d ((r, v) ∷ rest) = refs_from (insert_ref r v d) rest

-- The images are sorted.
pub record Workload : Type 0 where
  pub replicas : Option ℕ
  pub images : List String
  pub service_account : String

pub record Port : Type 0 where
  pub name : String
  pub port : ℕ
  pub protocol : String

-- The ports are sorted.
pub record Service : Type 0 where
  pub service_type : String
  pub ports : List Port
  pub headless : Bool

pub record Claim : Type 0 where
  pub claim : Ref
  pub storage_class : String

-- A reference of a configuration; the state is a text.
pub record Reference : Type 0 where
  pub target : Ref
  pub key : String
  pub optional : Bool
  pub state : String

pub record CisControl : Type 0 where
  pub status : String
  pub applicability : String

-- What the gates read of a collection. `items` are the objects of the manifests, of all kinds; a
-- file that is absent is `none`, a missing state too.
pub record Collection : Type 0 where
  pub completed : Bool
  pub status : String
  pub items : RefDict Workload
  pub services : RefDict Service
  pub policies : List Ref
  pub claims : Option (List Claim)
  pub storage_classes : Option (List String)
  pub service_accounts : Option (List (String × String))
  pub references : List Reference
  pub traffic_state : Option String
  pub traffic_paths : ℕ
  pub data_state : Option String
  pub stateful_workloads : ℕ
  pub jobs : ℕ
  pub node_state : String
  pub manifest_state : String
  pub versions_present : Bool
  pub end_of_support : ℕ
  pub version_skew : Bool
  pub lifecycle_unknown : ℕ
  pub cis_controls : Option (List CisControl)
  pub telemetry_state : String
  pub probes_state : Option String
  pub dns_validated : Option Bool
  pub load_balancer_validated : Option Bool
  pub rollback_available : Option Bool
  pub manual_state : String

abbrev pub workload_kinds : List String
workload_kinds = "Deployment" ∷ "StatefulSet" ∷ "DaemonSet" ∷ "Rollout" ∷ "Job" ∷ "CronJob" ∷ []

unfoldable pub workload_inventory : Collection → RefDict Workload
workload_inventory c =
    refs_from [] (keep (λ (p : Ref × Workload). mem p.0.kind workload_kinds) c.items)

unfoldable pub service_inventory : Collection → RefDict Service
service_inventory c = refs_from [] c.services

-- The sources that have no target under the mapping. The order is that of the given list.
unfoldable pub parity : List Ref → List Ref → Mapping → List Ref
parity sources targets m = keep (λ r. not (any (same_ref (mapped_resource r m)) targets)) sources
