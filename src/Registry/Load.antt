-- ===== src/Registry/Load.antt =====
-- `load_registry` of tools/eks-assessment/src/collector_registry.py, on the decoded entries.
pub mod Valid
use k8s_lab_vmware.Prelude.{
  zero, suc, String, List, [], ◌∷◌, Bool, true, false, not, ◌||◌, mem, minus, is_empty,
}
use k8s_lab_vmware.Prelude.Int.{ℤ, pos, negsuc}
use k8s_lab_vmware.Prelude.Result.{Result, ok, err, ◌>>=◌, ◌>>◌, refuse}
use k8s_lab_vmware.Registry.{
  Collector, Entry, malformed, entry, Error, empty_registry, invalid_entry, duplicate,
  invalid_weight, unknown_dependencies, ids,
}

-- `int(…) <= 0`
abbrev pub not_positive : ℤ → Bool
not_positive (pos zero) = true
not_positive (pos (suc n)) = false
not_positive (negsuc n) = true

-- The first loop: shapes, unique ids, positive weights and timeouts.
check_entries : (seen : List String) → List Entry → Result Error (List Collector)
check_entries seen [] = ok []
check_entries seen (malformed ∷ rest) = err invalid_entry
check_entries seen (entry c ∷ rest) = do
  refuse (mem c.id seen) (duplicate c.id)
  refuse (not_positive c.weight || not_positive c.timeout_seconds) (invalid_weight c.id)
  cs ← check_entries (c.id ∷ seen) rest
  ok (c ∷ cs)

-- The second loop: every dependency is the id of an entry.
check_dependencies : (seen : List String) → List Collector → Result Error (Unit {0})
check_dependencies seen [] = ok tt
check_dependencies seen (c ∷ cs) = do
  let unknown = minus c.dependencies seen
  refuse (not (is_empty unknown)) (unknown_dependencies c.id unknown)
  check_dependencies seen cs

unfoldable pub load_registry : List Entry → Result Error (List Collector)
unfolding check_entries check_dependencies
load_registry entries = do
  refuse (is_empty entries) empty_registry
  cs ← check_entries [] entries
  check_dependencies (ids cs) cs
  ok cs
