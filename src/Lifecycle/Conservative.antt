-- ===== src/Lifecycle/Conservative.antt =====
-- Missing or stale data never reads as support.
use k8s_lab_vmware.Prelude.{
  ℕ, ◌≤◌, ◌<◌, String, ◌≡◌, refl, Bool, true, false, ◌&&◌, Option, none, some, is_some, get_or,
  ◌==◌, lt→ltb, either_branch, arith,
}
use k8s_lab_vmware.Lifecycle.{
  Window, Catalog, catalog_metadata, is_supporting, end_of_support, find_window, Dates, dates_of,
  boundary_of, state_at, doubt_stale, is_no, gke_state, unassessed, at_boundary, from_window,
  aks_lifecycle, assess, minor, Lifecycle,
}

-- What a state of support rests on.
pub record Evidence (iso : String → Option ℕ) (c : Catalog) (version provider : String)
    (use_extended : Bool) (provider_supported : Option Bool) (now : ℕ) : Type 0 where
  pub fresh : (catalog_metadata iso c now).stale ≡ false
  pub window : Window
  pub found : find_window c provider (minor version) ≡ some window
  pub boundary : ℕ
  pub bounded : boundary_of use_extended (dates_of iso window) ≡ some boundary
  pub within : now ≤ boundary
  pub not_withdrawn : (provider == "gke" && is_no provider_supported) ≡ false

supporting-state :
    (provider : String) (available : Option Bool) (x stale : Bool) (d : Dates) (boundary now : ℕ)
    → is_supporting (gke_state provider available (doubt_stale stale (state_at x d boundary now)))
      ≡ true
    → (stale ≡ false) × (now ≤ boundary) × ((provider == "gke" && is_no available) ≡ false)
unfolding state_at
supporting-state provider available x stale d boundary now h = ground arith

doubt_expired : (stale : Bool) → doubt_stale stale end_of_support ≡ end_of_support
doubt_expired stale = ground arith

module _ (iso : String → Option ℕ) (c : Catalog) (version provider : String) (use_extended : Bool)
    (available : Option Bool) (now : ℕ) where
  abbrev start : Lifecycle
  start = unassessed (minor version) (catalog_metadata iso c now) provider

  at_boundary-Evidence :
      (w : Window)
      → find_window c provider (minor version) ≡ some w
      → (b : Option ℕ) → boundary_of use_extended (dates_of iso w) ≡ b
      → is_supporting
          (at_boundary provider available use_extended (dates_of iso w) now b start).state
        ≡ true
      → Evidence iso c version provider use_extended available now
  unfolding at_boundary
  at_boundary-Evidence w found none e h = cc
  at_boundary-Evidence w found (some b) e h =
      let (fresh, within, free) =
        supporting-state provider available use_extended (catalog_metadata iso c now).stale
          (dates_of iso w) b now h in
      record {
        fresh = fresh;
        window = w;
        found = found;
        boundary = b;
        bounded = e;
        within = within;
        not_withdrawn = free;
      }

  from_window-Evidence :
      (o : Option Window)
      → find_window c provider (minor version) ≡ o
      → is_supporting (from_window iso provider available use_extended now o start).state ≡ true
      → Evidence iso c version provider use_extended available now
  unfolding from_window
  from_window-Evidence none e h = cc
  from_window-Evidence (some w) e h = at_boundary-Evidence w e _ refl h

  aks-refused : (answer : Bool) → is_supporting (aks_lifecycle answer start).state ≡ false
  aks-refused answer = ground arith

  ne : {b : Bool} → b ≡ false → b ≡ true → ⊥
  ne p q = cc

  -- A version is given a state of support (SUPPORTED, MAINTENANCE or EXTENDED_SUPPORT) only on a
  -- catalog that is not stale, with a record of its minor version whose boundary has not passed, and
  -- if GKE has not withdrawn it.
  pub assess-Evidence :
      is_supporting (assess iso version provider use_extended available now c).state ≡ true
      → Evidence iso c version provider use_extended available now
  unfolding assess
  assess-Evidence =
      either_branch
        (λ (r : Lifecycle).
          is_supporting r.state ≡ true → Evidence iso c version provider use_extended available now)
        (provider == "aks" && is_some available)
        (λ a h. absurd (ne (aks-refused (get_or available false)) h))
        (λ a h. from_window-Evidence _ refl h)

  -- A version past its boundary is END_OF_SUPPORT, on a stale catalog too, unless the provider has
  -- answered about it: AKS at all, or GKE that it is not available.
  pub assess-expired :
      (w : Window) (boundary : ℕ)
      → find_window c provider (minor version) ≡ some w
      → boundary_of use_extended (dates_of iso w) ≡ some boundary
      → boundary < now
      → (provider == "aks" && is_some available) ≡ false
      → (provider == "gke" && is_no available) ≡ false
      → (assess iso version provider use_extended available now c).state ≡ end_of_support
  unfolding assess from_window at_boundary state_at
  assess-expired w boundary found bounded late no_aks no_gke =
      rw (no_aks, found, bounded, lt→ltb boundary now late)
        (rw (no_gke, doubt_expired (catalog_metadata iso c now).stale) refl)
