-- ===== src/Domain/Assets/Checks.antt =====
-- The `__post_init__` methods of the records of an inventory: each returns the record that it
-- accepts.
use powerfactory_mcp.Prelude.{
  ℕ, String, Bool, true, false, ◌&&◌, ◌==◌, nat_eq, leb, is_none, Option, none, some, List, [], ◌∷◌,
  length, if◌then◌else◌,
}
use powerfactory_mcp.Errors.{Result, ok, value_error, too_long, guard, refuse, ◌>>◌}
use powerfactory_mcp.Domain.Values.Checks.{require_text, require_aware, require_uuid4, codes}
use powerfactory_mcp.Domain.Assets.{
  AssetReference, PowerFactoryLocator, ProjectProvenance, LocatorEvidenceSchema, LocatorKind,
  LocatorTrust, InventoryQuery, InventoryPage, PageCursor,
}

abbrev pub max_text_length : ℕ
max_text_length = 4096

abbrev pub max_collection_length : ℕ
max_collection_length = 10000

abbrev pub max_page_size : ℕ
max_page_size = 100

-- `<=` of two texts: Python compares their code points in order.
unfoldable pub codes_le : List ℕ → List ℕ → Bool
codes_le [] ys = true
codes_le (x ∷ xs) [] = false
codes_le (x ∷ xs) (y ∷ ys) = let rest = codes_le xs ys in if nat_eq x y then rest else leb x y

abbrev pub str_le : String → String → Bool
str_le a b = codes_le (codes a) (codes b)

unfoldable pub require_collection {ℓ} : {A : Type ℓ} → List A → String → Result (Unit {0})
require_collection values field = guard (leb (length values) max_collection_length) (too_long field)

-- `not minimum <= value <= maximum` of domain/inventory.py.
unfoldable pub require_bounded : ℕ → String → ℕ → ℕ → Result (Unit {0})
require_bounded value field minimum maximum =
    guard (leb minimum value && leb value maximum) (value_error field)

-- The `value`s of the items' product identities.
unfoldable pub identities : List AssetReference → List String
identities [] = []
identities (a ∷ as') = a.product_identity ∷ identities as'

-- `identities == tuple(sorted(identities))`: each is at most the next one.
unfoldable pub is_sorted : List String → Bool
is_sorted [] = true
is_sorted (x ∷ []) = true
is_sorted (x ∷ y ∷ ys) = str_le x y && is_sorted (y ∷ ys)

unfoldable pub new_project_provenance : ProjectProvenance → Result ProjectProvenance
new_project_provenance p = do
  require_text p.installation_id "ProjectProvenance.installation_id" 256
  require_text p.profile_id "ProjectProvenance.profile_id" 256
  require_text p.project_key "ProjectProvenance.project_key" 512
  require_text p.project_evidence "ProjectProvenance.project_evidence" max_text_length
  ok p

unfoldable pub new_evidence_schema : LocatorEvidenceSchema → Result LocatorEvidenceSchema
new_evidence_schema s = do
  require_text s.name "LocatorEvidenceSchema.name" 128
  require_text s.version "LocatorEvidenceSchema.version" 64
  require_text s.gateway_adapter_version "LocatorEvidenceSchema.gateway_adapter_version" 128
  ok s

check_native : Option String → Option String → Result (Unit {0})
check_native none none = ok tt
check_native (some field) (some value) = do
  require_text field "PowerFactoryLocator.native_field" 128
  require_text value "PowerFactoryLocator.native_value" max_text_length
check_native _ _ =
    guard false (value_error "native_field and native_value must both be present or absent")

check_path : Option String → Result (Unit {0})
check_path none = ok tt
check_path (some path) = require_text path "PowerFactoryLocator.canonical_path" max_text_length

-- The evidence that the kind of a locator wants.
check_kind : LocatorKind → PowerFactoryLocator → Result (Unit {0})
check_kind LocatorKind.native_candidate l =
    refuse (is_none l.native_value)
      (value_error "native_candidate locators require native evidence")
check_kind LocatorKind.canonical_path_fallback l =
    refuse (is_none l.canonical_path)
      (value_error "canonical_path_fallback locators require a canonical path")

check_trust : LocatorTrust → Bool → Result (Unit {0})
check_trust LocatorTrust.verified_native accepted =
    guard accepted (value_error "verified_native requires explicit accepted Windows evidence")
check_trust _ accepted = ok tt

unfoldable pub new_locator : PowerFactoryLocator → Result PowerFactoryLocator
unfolding check_native check_path check_kind check_trust
new_locator l = do
  require_uuid4 l.locator_version_id "PowerFactoryLocator.locator_version_id"
  require_text l.object_class "PowerFactoryLocator.object_class" 128
  require_aware l.observed_at "PowerFactoryLocator.observed_at"
  require_text l.session_id "PowerFactoryLocator.session_id" 256
  check_native l.native_field l.native_value
  check_path l.canonical_path
  check_kind l.locator_kind l
  check_trust l.trust l.native_evidence_accepted
  ok l

unfoldable pub new_asset_reference : AssetReference → Result AssetReference
new_asset_reference a = do
  require_text a.display_name "AssetReference.display_name" max_text_length
  require_text a.project_key "AssetReference.project_key" max_text_length
  guard (a.project_key == a.locator.project_provenance.project_key)
      (value_error "AssetReference project_key must match its locator")
  ok a

unfoldable pub new_page_cursor : PageCursor → Result PageCursor
new_page_cursor token = do require_text token "PageCursor.token" max_text_length; ok token

check_project : Option String → Result (Unit {0})
check_project none = ok tt
check_project (some key) = require_text key "InventoryQuery.exact_project_key" max_text_length

unfoldable pub new_inventory_query : InventoryQuery → Result InventoryQuery
unfolding check_project
new_inventory_query q = do
  check_project q.exact_project_key
  require_bounded q.page_size "InventoryQuery.page_size must be between 1 and 100" 1 100
  guard (q.sort_specification == "product_uuid_asc")
      (value_error "only deterministic product_uuid_asc ordering is admitted")
  ok q

unfoldable pub new_inventory_page : InventoryPage → Result InventoryPage
new_inventory_page p = do
  require_collection p.items "InventoryPage.items"
  guard p.deterministic_order (value_error "inventory pages must declare deterministic ordering")
  guard (is_sorted (identities p.items))
      (value_error "inventory items must be ordered by product UUID")
  guard (leb (length p.items) p.query.page_size)
      (value_error "inventory page exceeds requested page size")
  ok p
