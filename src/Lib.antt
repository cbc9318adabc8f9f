-- ===== src/Lib.antt =====
-- The offline decision logic of the Kubernetes assessment, the Python program under
-- tools/eks-assessment/src. A collection is a directory of JSON artifacts; the program plans which
-- collectors fill it and tracks them, supervises their processes, validates the artifacts, and
-- compares collections by gates that a release depends on.
--
-- Parts, and the files that model them:
-- - Registry: tools/eks-assessment/src/collector_registry.py, the registry of collectors and its
--   execution plan (Registry/Load: `load_registry`; Registry/Plan: `build_plan`,
--   `add_dependencies`), the weighted progress (Registry/Progress: `calculate_progress`) and the
--   state file of a collection (Registry/State: `init_state`, `update_state`, `should_run`).
-- - Regression: tools/eks-assessment/src/regression_validation.py, the gates on which a release
--   depends: the policy (Regression/Policy: `load_policy`), the scope of the collections
--   (Regression/Scope), the comparison of findings (Regression/Findings), the gates
--   (Regression/Gates, Regression/Cis), the report (Regression/Evaluate: `evaluate`) and its JUnit
--   and SARIF forms (Regression/Output). Regression/Cis also has `compare_reports` of
--   tools/eks-assessment/src/cis_security_assessment.py. A collection is the record of what the
--   gates read. Limits of the policy are whole numbers, percentages are hundredths where the code
--   rounds to two places, whole in CIS. Summary and evidence texts of gates are left out.
-- - Supervisor: tools/eks-assessment/src/assessment_process_supervisor.py, the state of
--   `CollectionSupervisor` and its methods. A method is split where it gives up the lock; the parts
--   are events of any number of threads (Supervisor/Events), and `run` is also a whole, with the
--   events of other threads between its parts (Supervisor/Run).
-- - Lifecycle: tools/eks-assessment/src/lifecycle_catalog.py, the support state of a version from the
--   catalog (`minor`, `catalog_metadata`, `assess`). A date is the number of its day, and
--   `date.fromisoformat` a parameter.
-- - Migration: tools/eks-assessment/src/migration_compare.py, the mapping of resources to the target
--   and parity (Migration), the gates (Migration/Parity, Migration/Gates) and the verdict of
--   `evaluate`. Sorted texts of the evidence are left out.
-- - Json: decoded JSON values, their comparison, and how the code reads them (Json/Access). Contracts:
--   tools/eks-assessment/src/assessment_contracts.py, `validate_value` (Contracts/Schema) and
--   `validate_collection` (Contracts/Collection). The search for a pattern, and `str` of a value that
--   is no text, are parameters.
-- - Bundle: tools/eks-assessment/src/collection_bundle.py, archives as lists of members (Bundle:
--   `inspect_bundle`, `verify_bundle`; Bundle/Import, Bundle/Export), and the pruning of old collections
--   (Bundle/Prune). Digests, the reading and writing of manifests, and resolved paths are parameters.
-- - Manifests: tools/eks-assessment/src/manifest_schema_validation.py, the checks of a manifest
--   (Manifests, Manifests/Checks), the loop and the report (Manifests/Evaluate:
--   `evaluate_collection`). `str` of a value that is no text and `str.lower` are parameters.
-- - Provider: tools/eks-assessment/src/provider_validation.py, the gates of a provider (Provider,
--   Provider/Safety, Provider/Applicability) and the report (Provider/Evaluate: `evaluate`).
--   Python's functions on values, the detected platform and the result of the artifact validation
--   are arguments.
-- - Readiness: tools/eks-assessment/src/blue_green_readiness.py, the manual evidence
--   (Readiness/Evidence: `manual_evidence`), the states of probes and data, and `aggregate_readiness`.
--   The configuration and traffic states, and what the cluster holds, are arguments.
--
-- Conventions. A Python dictionary with text keys is an association list in insertion order
-- (Prelude/Text.antt), a set is a list with a membership test; where the program iterates over a
-- set, the order is a parameter. A decoded JSON object is, in Registry, Regression, Migration and
-- Bundle, a record of the fields that the code reads, with what the code puts in place of a missing
-- one; in Contracts, Manifests, Provider and Readiness/Evidence it is a value of Json, and reading it
-- raises where Python does. `ValueError` and the like are the
-- `err` of a result type with one constructor for each message. Files are values passed in and
-- returned, clocks and digests are arguments. `round` of a quotient is taken exactly
-- (Prelude/Rounding.antt).
--
-- Fuel: `add_dependencies` recurs on fuel, with one unit more than the registry has entries. Each
-- call made by a call has selected one more id of the channel, so the fuel does not run out
-- (Registry/Plan/Total.antt).
--
-- Not modelled: argument parsing, printing, the atomic file writes, the HTTP dashboard, the
-- collectors that call kubectl, cloud or Prometheus APIs, the assessments that read raw cluster
-- objects (operational insights, semantic and comprehensive assessment, references and traffic paths
-- of the blue-green readiness), and the parts of the repository in other languages (services,
-- manifests, scripts).
pub mod Prelude
pub mod Registry
pub mod Regression
pub mod Supervisor
pub mod Lifecycle
pub mod Migration
pub mod Json
pub mod Contracts
pub mod Bundle
pub mod Manifests
pub mod Provider
pub mod Readiness
