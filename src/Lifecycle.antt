-- ===== src/Lifecycle.antt =====
-- tools/eks-assessment/src/lifecycle_catalog.py: the support state of a Kubernetes version from a
-- versioned catalog. A date is the number of its day; `iso`, a parameter, is the reading of a date by
-- `datetime.date.fromisoformat`.
pub mod Conservative
mod Examples
use Prim.Native.Char.{code}
use Prim.Native.String.{◌++◌ as text_append}
use k8s_lab_vmware.Prelude.{
  ℕ, ◌-◌, String, Bool, true, false, not, ◌&&◌, ◌||◌, Option, none, some, if◌then◌else◌, is_some,
  get_or, ◌==◌, or_text, ltb, leb, nat_eq, Dict, lookup,
}
use k8s_lab_vmware.Prelude.Int.{ℤ, sub_ℕ}

abbrev pub is_digit : ℕ → Bool
is_digit c = leb 48 c && leb c 57

unfoldable pub digits : String → String
digits String.[] = String.[]
digits (String.◌∷◌ c s) = if is_digit (code c) then String.◌∷◌ c (digits s) else String.[]

abbrev pub after_dot : String → String
after_dot String.[] = ""
after_dot (String.◌∷◌ c s) =
    if nat_eq (code c) 46 && not (digits s == "") then text_append "1." (digits s) else ""

-- `1\.\d+` at the start of a text
unfoldable pub minor_at : String → String
unfolding digits
minor_at String.[] = ""
minor_at (String.◌∷◌ c s) = if nat_eq (code c) 49 then after_dot s else ""

unfoldable pub minor_from : (after_digit : Bool) → String → String
unfolding minor_at
minor_from after_digit String.[] = ""
minor_from after_digit (String.◌∷◌ c s) =
    let rest = minor_from (is_digit (code c)) s in
    if not after_digit && not (minor_at (String.◌∷◌ c s) == "")
    then minor_at (String.◌∷◌ c s)
    else rest

-- The first match of `(?:^|\D)(1\.\d+)(?:\D|$)`, for the ten digits; a run of digits is always followed
-- by another character or the end.
unfoldable pub minor : String → String
unfolding minor_from
minor version = minor_from false version

-- A record of the catalog; a missing or falsy date is empty. An empty record is absent.
pub record Window : Type 0 where
  pub standard_end : String
  pub end_of_support : String
  pub extended_end : String
  pub maintenance_end : String

-- A missing or falsy text is empty, a missing number 0.
pub record Catalog : Type 0 where
  pub schema_version : String
  pub as_of : String
  pub stale_after : ℕ
  pub sources : Dict String
  pub windows : Dict (Dict Window)
  pub catalog_error : String

abbrev pub parse_date : (iso : String → Option ℕ) → String → Option ℕ
parse_date iso s = if s == "" then none else iso s

pub record CatalogMetadata : Type 0 where
  pub schema_version : String
  pub as_of : String
  pub age_days : Option ℤ
  pub stale : Bool
  pub stale_after : ℕ
  pub sources : Dict String
  pub catalog_error : String

abbrev pub max_age_of : Catalog → ℕ
max_age_of c = if nat_eq c.stale_after 0 then 30 else c.stale_after

-- A date in the future has a negative age, which is over no limit.
abbrev pub is_stale : Option ℕ → (max_age now : ℕ) → Bool
is_stale none max_age now = true
is_stale (some date) max_age now = ltb max_age (now - date)

abbrev pub age_of : Option ℕ → ℕ → Option ℤ
age_of none now = none
age_of (some date) now = some (sub_ℕ now date)

unfoldable pub catalog_metadata : (iso : String → Option ℕ) → Catalog → (now : ℕ) → CatalogMetadata
catalog_metadata iso c now = record {
  schema_version = or_text c.schema_version "0";
  as_of = or_text c.as_of "UNKNOWN";
  age_days = age_of (parse_date iso c.as_of) now;
  stale = is_stale (parse_date iso c.as_of) (max_age_of c) now;
  stale_after = max_age_of c;
  sources = c.sources;
  catalog_error = c.catalog_error;
}

pub data Support : Type 0 where
  unknown provider_available upgrade_required end_of_support extended_support maintenance : Support
  supported unknown_stale_catalog : Support

pub data EvidenceMode : Type 0 where
  dynamic catalog_and_dynamic : EvidenceMode

pub record Lifecycle : Type 0 where
  pub minor_version : String
  pub state : Support
  pub support_until : Option ℕ
  pub days_remaining : Option ℤ
  pub source : String
  pub catalog_as_of : String
  pub catalog_stale : Bool
  pub evidence_mode : Option EvidenceMode

-- The keys of `source_key`.
abbrev pub source_key : String → String
source_key provider =
    if provider == "eks" || provider == "aks" || provider == "gke" then provider else "kubernetes"

abbrev pub window_of : Option (Dict Window) → String → Option Window
window_of none version = none
window_of (some windows) version = lookup version windows

unfoldable pub find_window : Catalog → (provider version : String) → Option Window
find_window c provider version =
    if version == "" then none else window_of (lookup (source_key provider) c.windows) version

-- The three parsed dates of a record.
pub record Dates : Type 0 where
  pub standard : Option ℕ
  pub extended : Option ℕ
  pub maintenance : Option ℕ

unfoldable pub dates_of : (iso : String → Option ℕ) → Window → Dates
dates_of iso w = record {
  standard = parse_date iso (or_text w.standard_end w.end_of_support);
  extended = parse_date iso w.extended_end;
  maintenance = parse_date iso w.maintenance_end;
}

abbrev pub boundary_of : (use_extended : Bool) → Dates → Option ℕ
boundary_of use_extended d = if use_extended && is_some d.extended then d.extended else d.standard

-- `day and now > day`
abbrev pub past : Option ℕ → ℕ → Bool
past none now = false
past (some day) now = ltb day now

unfoldable pub state_at : (use_extended : Bool) → Dates → (boundary now : ℕ) → Support
state_at use_extended d boundary now =
    if ltb boundary now
    then end_of_support
    else if use_extended && past d.standard now
    then extended_support
    else if past d.maintenance now
    then maintenance
    else supported

abbrev pub is_supporting : Support → Bool
is_supporting supported = true
is_supporting maintenance = true
is_supporting extended_support = true
is_supporting _ = false

abbrev pub doubt_stale : Bool → Support → Support
doubt_stale stale s = if stale && is_supporting s then unknown_stale_catalog else s

abbrev pub is_no : Option Bool → Bool
is_no (some false) = true
is_no _ = false

abbrev pub gke_state : (provider : String) → Option Bool → Support → Support
gke_state provider provider_supported s =
    if provider == "gke" && is_no provider_supported then upgrade_required else s

abbrev pub gke_mode : (provider : String) → Option Bool → Option EvidenceMode
gke_mode provider none = none
gke_mode provider (some available) =
    if provider == "gke" then some (if available then catalog_and_dynamic else dynamic) else none

abbrev pub unassessed : String → CatalogMetadata → (provider : String) → Lifecycle
unassessed version m provider = record {
  minor_version = or_text version "UNKNOWN";
  state = unknown;
  support_until = none;
  days_remaining = none;
  source = get_or (lookup (source_key provider) m.sources) "";
  catalog_as_of = m.as_of;
  catalog_stale = m.stale;
  evidence_mode = none;
}

-- From the boundary on; without one the first result stands.
unfoldable pub at_boundary :
    (provider : String)
    → Option Bool
    → (use_extended : Bool) → Dates
    → (now : ℕ) → Option ℕ
    → Lifecycle
    → Lifecycle
at_boundary provider provider_supported use_extended d now none r = r
at_boundary provider provider_supported use_extended d now (some boundary) r = record r {
  support_until = some boundary;
  days_remaining = some (sub_ℕ boundary now);
  evidence_mode = gke_mode provider provider_supported;
  state =
      gke_state provider provider_supported
        (doubt_stale r.catalog_stale (state_at use_extended d boundary now));
}

unfoldable pub from_window :
    (iso : String → Option ℕ) (provider : String)
    → Option Bool
    → (use_extended : Bool) → (now : ℕ) → Option Window
    → Lifecycle
    → Lifecycle
from_window iso provider provider_supported use_extended now none r = r
from_window iso provider provider_supported use_extended now (some w) r =
    at_boundary provider provider_supported use_extended (dates_of iso w) now
      (boundary_of use_extended (dates_of iso w)) r

abbrev pub aks_lifecycle : Bool → Lifecycle → Lifecycle
aks_lifecycle available r = record r {
  state = if available then provider_available else upgrade_required;
  evidence_mode = some dynamic;
}

-- `use_extended` is `support_type.upper() == "EXTENDED" or release_channel.upper() == "EXTENDED"`.
unfoldable pub assess :
    (iso : String → Option ℕ) (version provider : String) (use_extended : Bool)
    → (provider_supported : Option Bool) → (now : ℕ) → Catalog
    → Lifecycle
assess iso version provider use_extended provider_supported now catalog =
    let r = unassessed (minor version) (catalog_metadata iso catalog now) provider in
    if provider == "aks" && is_some provider_supported
    then aks_lifecycle (get_or provider_supported false) r
    else from_window iso provider provider_supported use_extended now
        (find_window catalog provider (minor version)) r
