-- ===== src/Regression/Output/Agreement.antt =====
-- The two documents and the verdict of the report.
use k8s_lab_vmware.Prelude.{List, [], ◌∷◌, ◌≡◌, ◌↔◌, refl, true, arith, length, keep}
use k8s_lab_vmware.Regression.{Gate}
use k8s_lab_vmware.Regression.Evaluate.{release_ready}
use k8s_lab_vmware.Regression.Output.{blocking, junit_xml, sarif_results}

same_length : (gates : List Gate) → length (keep blocking gates) ≡ length (sarif_results gates)
unfolding sarif_results
same_length [] = refl
same_length (g ∷ gates) = ground (arith, same_length gates)

ready_iff : (gates : List Gate) → release_ready gates ≡ true ↔ sarif_results gates ≡ []
unfolding release_ready sarif_results
ready_iff [] = (λ _. refl, λ _. refl)
ready_iff (g ∷ gates) = ground (arith, ready_iff gates)

-- For any gates: the JUnit suite counts as many failures as the SARIF log has results, and the
-- release is ready exactly if there is none.
pub junit_xml-sarif_results :
    (gates : List Gate)
    → ((junit_xml gates).failures ≡ length (sarif_results gates))
      × (release_ready gates ≡ true ↔ sarif_results gates ≡ [])
unfolding junit_xml
junit_xml-sarif_results gates = (same_length gates, ready_iff gates)
