-- ===== src/Provider/Passed.antt =====
-- What each gate of tools/eks-assessment/src/provider_validation.py has tested where it passes.
use k8s_lab_vmware.Prelude.{
  String, List, [], ◌∷◌, ◌++◌, ◌≡◌, ◌≤◌, refl, Bool, true, false, not, ◌&&◌, ◌||◌, Option, none,
  some, ℕ, all, any, arith, all-append, ◌==◌, mem, leb→le, is_empty, All, eq_iff,
}
use k8s_lab_vmware.Prelude.Result.{ok, ok_inj, returned}
use k8s_lab_vmware.Json.{Number, Fields, array, nil, get, below}
use k8s_lab_vmware.Json.Access.{or_else, object_or_empty}
use k8s_lab_vmware.Provider.{
  Builtins, Status, failed, Gate, GateId, gate, passing, Documents, is_terminal, agrees,
  terminal_state, detection, integrity, read_only, data_protection, applicability, quality,
  kubernetes_coverage, budget, platform_of, text_at, reports_of, is_boolean,
}
use k8s_lab_vmware.Provider.Safety.{is_read_only, any_mutates, set_of}
use k8s_lab_vmware.Provider.Evaluate.{
  is_pass, budget_status, coverage_status, cloud_gates_of, cloud_status, gates_of, exceeds,
  is_missing,
}

-- A metric that is there and does not exceed its limit.
abbrev pub IsWithin : Option Number × Number → Type 0
IsWithin (value, limit) = (n : Number) × (value ≡ some n) × (below limit n ≡ false)

-- The share of available sources is known and reaches the minimum.
abbrev pub Reaches : Option ℕ → ℕ → Type 0
Reaches percent minimum = (p : ℕ) × (percent ≡ some p) × (minimum ≤ p)

-- No API of a cloud for a generic cluster; for a provider, one that is available and covered.
abbrev pub CloudEvidence : (is_generic : Bool) → String → Option ℕ → ℕ → Type 0
CloudEvidence true state percent minimum = mem state ("N/A" ∷ "NOT_APPLICABLE" ∷ []) ≡ true
CloudEvidence false state percent minimum = (state ≡ "AVAILABLE") × Reaches percent minimum

passing_lem :
    (id : GateId) (x : Bool) (gates : List Gate)
    → all (λ (g : Gate). not g.mandatory || is_pass g.status) (gate id (passing x) ∷ gates) ≡ true
    → (x ≡ true) × (all (λ (g : Gate). not g.mandatory || is_pass g.status) gates ≡ true)
passing_lem id true gates h = (refl, h)
passing_lem id false gates h = cc

pub coverage_lem :
    (unknown : Status) (o : Option ℕ) (minimum : ℕ)
    → is_pass unknown ≡ false
    → is_pass (coverage_status unknown o minimum) ≡ true
    → Reaches o minimum
coverage_lem unknown none minimum u h = absurd (clash u h)
  where
    clash : {x : Bool} → x ≡ false → x ≡ true → ⊥
    clash p q = cc
coverage_lem unknown (some p) minimum u h = (p, refl, leb→le minimum p (ground arith))

pub budget_lem :
    (metrics : List (Option Number × Number))
    → is_pass (budget_status metrics) ≡ true
    → All IsWithin metrics
unfolding budget_status
budget_lem metrics h = within metrics (ground arith) (ground arith)
  where
    within :
        (metrics : List (Option Number × Number))
        → any exceeds metrics ≡ false
        → any is_missing metrics ≡ false
        → All IsWithin metrics
    within [] e m = tt
    within ((none, limit) ∷ rest) e m = cc
    within ((some n, limit) ∷ rest) e m =
        ((n, refl, ground arith), within rest (ground arith) (ground arith))

abbrev pub holds : Gate → Bool
holds g = not g.mandatory || is_pass g.status

pub cloud_lem :
    (is_generic : Bool) (state : String) (percent : Option ℕ) (minimum : ℕ)
    → all holds (cloud_gates_of is_generic state percent minimum) ≡ true
    → CloudEvidence is_generic state percent minimum
unfolding cloud_gates_of
cloud_lem true state percent minimum h = ground arith
cloud_lem false state percent minimum h =
    (available (ground arith), coverage_lem failed percent minimum refl (ground arith))
  where
    available : is_pass (cloud_status state) ≡ true → state ≡ "AVAILABLE"
    available e = ground (arith, eq_iff state "AVAILABLE")

all-All : {A : Type 0} (p : A → Bool) (xs : List A) → all p xs ≡ true → All (λ x. p x ≡ true) xs
all-All p [] h = tt
all-All p (x ∷ xs) h = (ground arith, all-All p xs (ground arith))

and_left : (x y : Bool) → (x && y) ≡ true → x ≡ true
and_left true y h = refl
and_left false y h = cc

pub is_read_only-All :
    (b : Builtins) (d : Documents)
    → is_read_only b d ≡ ok true
    → All (λ r. is_boolean true (get "readOnly" r) ≡ true) (reports_of d)
unfolding is_read_only
is_read_only-All b d h =
    let (mutates, e1, h1) = returned (any_mutates (reports_of d)) _ h in
    let (safety, e2, h2) = returned (object_or_empty (get "safety" d.comprehensive)) _ h1 in
    let (verbs, e3, h3) =
      returned (set_of (or_else (get "kubectlVerbs" safety) (array nil))) _ h2 in
    let (cloud_safety, e4, h4) = returned (object_or_empty (get "safety" d.cloud)) _ h3 in
    let (operations, e5, h5) =
      returned (set_of (or_else (get "operations" cloud_safety) (array nil))) _ h4 in
    all-All (λ r. is_boolean true (get "readOnly" r)) (reports_of d)
      (and_left (all (λ r. is_boolean true (get "readOnly" r)) (reports_of d)) _ (ok_inj h5))

pub agrees_lem :
    (b : Builtins) (detected expected : String) (cloud operational : Fields)
    → agrees b detected expected cloud operational ≡ true
    → (detected ≡ expected)
      × (text_at b "provider" "UNKNOWN" cloud ≡ expected)
      × (platform_of b operational ≡ expected)
unfolding agrees
agrees_lem b detected expected cloud operational h = three detected _ _ h
  where
    three :
        (x y z : String)
        → all (λ s. s == expected) (x ∷ y ∷ z ∷ []) ≡ true
        → (x ≡ expected) × (y ≡ expected) × (z ≡ expected)
    three x y z e = (
      ground (arith, eq_iff x expected, e),
      ground (arith, eq_iff y expected, e),
      ground (arith, eq_iff z expected, e),
    )

pub no_more : {A : Type 0} (xs : List A) → is_empty xs ≡ true → xs ≡ []
no_more [] h = refl
no_more (x ∷ xs) h = cc

pub terminal_lem :
    (b : Builtins) (metadata : Fields)
    → is_terminal b metadata ≡ true
    → (b.upper (text_at b "status" "UNKNOWN" metadata) ≡ "COMPLETED")
      × (is_boolean true (get "completed" metadata) ≡ true)
unfolding is_terminal
terminal_lem b metadata h =
    two (b.upper (text_at b "status" "UNKNOWN" metadata))
      (is_boolean true (get "completed" metadata)) h
  where
    two :
        (s : String) (done : Bool)
        → (s == "COMPLETED" && done) ≡ true
        → (s ≡ "COMPLETED") × (done ≡ true)
    two s done e = (ground (arith, eq_iff s "COMPLETED"), ground arith)

-- The gates of a release that is ready, each passed.
module _ (terminal agreed intact safe kept applied clean : Bool) (coverage : Status)
    (cloud : List Gate) (performance : Status) where
  pub record AllPassed : Type 0 where
    pub terminal_passed : terminal ≡ true
    pub agreed_passed : agreed ≡ true
    pub intact_passed : intact ≡ true
    pub safe_passed : safe ≡ true
    pub kept_passed : kept ≡ true
    pub applied_passed : applied ≡ true
    pub clean_passed : clean ≡ true
    pub coverage_passed : is_pass coverage ≡ true
    pub cloud_passed : all holds cloud ≡ true
    pub performance_passed : is_pass performance ≡ true

  pub gates_of-AllPassed :
      all holds (gates_of terminal agreed intact safe kept applied clean coverage cloud performance)
        ≡ true
      → AllPassed
  unfolding gates_of
  gates_of-AllPassed h =
      let s7 = gate kubernetes_coverage coverage ∷ (cloud ++ gate budget performance ∷ []) in
      let s6 = gate quality (passing clean) ∷ s7 in
      let s5 = gate applicability (passing applied) ∷ s6 in
      let s4 = gate data_protection (passing kept) ∷ s5 in
      let s3 = gate read_only (passing safe) ∷ s4 in
      let s2 = gate integrity (passing intact) ∷ s3 in
      let s1 = gate detection (passing agreed) ∷ s2 in
      let (g1, h1) = passing_lem terminal_state terminal s1 h in
      let (g2, h2) = passing_lem detection agreed s2 h1 in
      let (g3, h3) = passing_lem integrity intact s3 h2 in
      let (g4, h4) = passing_lem read_only safe s4 h3 in
      let (g5, h5) = passing_lem data_protection kept s5 h4 in
      let (g6, h6) = passing_lem applicability applied s6 h5 in
      let (g7, h7) = passing_lem quality clean s7 h6 in
      let split = all-append holds cloud (gate budget performance ∷ []) in
      record {
        terminal_passed = g1;
        agreed_passed = g2;
        intact_passed = g3;
        safe_passed = g4;
        kept_passed = g5;
        applied_passed = g6;
        clean_passed = g7;
        coverage_passed = ground (arith, h7);
        cloud_passed = ground (arith, h7, split);
        performance_passed = ground (arith, h7, split);
      }
