-- ===== src/Domain/Inventory/Checks.antt =====
-- The `__post_init__` methods of domain/inventory.py: each returns the record that it accepts.
use powerfactory_mcp.Prelude.{
  ℕ, ◌+◌, String, Bool, true, false, not, ◌&&◌, ◌==◌, nat_eq, leb, ltb, Option, none, some, List,
  [], ◌∷◌, length, if◌then◌else◌, ◌≡◌, sym, ap,
}
use powerfactory_mcp.Errors.{Result, ok, err, value_error, guard, refuse, ◌>>◌, >>=-eq-ok}
use powerfactory_mcp.Table.{any}
use powerfactory_mcp.Domain.Values.Checks.{require_text}
use powerfactory_mcp.Domain.Assets.{AssetKind, AssetReference, kind_eq}
use powerfactory_mcp.Domain.Assets.Checks.{
  require_collection, require_bounded, identities, is_sorted, max_collection_length, max_page_size,
}
use powerfactory_mcp.Domain.Inventory.{
  ExtractionWarningCode, ExtractionWarning, InventoryBinding, ModelSummaryRequest, AssetKindSummary,
  ModelSummary, ComponentListRequest, ComponentPage, AssetLookupRequest, AssetLookupResult,
}

-- `value in values`, `len(set(values)) == len(values)`.
abbrev pub contains : List String → String → Bool
contains values value = any (λ v. v == value) values

unfoldable pub all_distinct : List String → Bool
all_distinct [] = true
all_distinct (v ∷ vs) = not (contains vs v) && all_distinct vs

check_examples : List String → Result (Unit {0})
check_examples [] = ok tt
check_examples (e ∷ es) = do
  require_text e "ExtractionWarning.examples entry" 512
  check_examples es

unfoldable pub new_extraction_warning : ExtractionWarning → Result ExtractionWarning
unfolding check_examples
new_extraction_warning w = do
  require_bounded w.count "ExtractionWarning.count" 1 max_collection_length
  require_collection w.examples "ExtractionWarning.examples"
  guard (leb (length w.examples) 20)
      (value_error "ExtractionWarning.examples exceeds the hard boundary limit")
  check_examples w.examples
  guard (all_distinct w.examples) (value_error "ExtractionWarning.examples must be unique")
  ok w

unfoldable pub new_inventory_binding : InventoryBinding → Result InventoryBinding
new_inventory_binding b = do
  require_text b.exact_project_key "InventoryBinding.exact_project_key" 512
  guard (b.freshness.configuration_key == b.configuration_key)
      (value_error "inventory freshness must bind the configuration key")
  ok b

unfoldable pub new_summary_request : ModelSummaryRequest → Result ModelSummaryRequest
new_summary_request r = do
  require_text r.exact_project_key "ModelSummaryRequest.exact_project_key" 512
  require_bounded r.page_size "ModelSummaryRequest.page_size" 1 max_page_size
  require_bounded r.inventory_limit "ModelSummaryRequest.inventory_limit" 1 max_collection_length
  require_bounded r.sample_limit_per_kind "ModelSummaryRequest.sample_limit_per_kind" 0 20
  require_bounded r.warning_example_limit "ModelSummaryRequest.warning_example_limit" 0 20
  ok r

-- `all(item.asset_kind is kind ...)`, `all(item.project_key == key ...)`.
abbrev pub all_of_kind : AssetKind → List AssetReference → Bool
all_of_kind kind items = not (any (λ a. not (kind_eq a.asset_kind kind)) items)

abbrev pub all_of_project : String → List AssetReference → Bool
all_of_project key items = not (any (λ a. not (a.project_key == key)) items)

unfoldable pub is_ordered : List AssetReference → Bool
is_ordered items = is_sorted (identities items) && all_distinct (identities items)

check_kind_summary : AssetKindSummary → Result (Unit {0})
check_kind_summary s = do
  require_bounded s.total_count "AssetKindSummary.total_count" 0 max_collection_length
  require_bounded s.supported_count "AssetKindSummary.supported_count" 0 max_collection_length
  require_bounded s.unsupported_count "AssetKindSummary.unsupported_count" 0 max_collection_length
  require_bounded s.unresolved_count "AssetKindSummary.unresolved_count" 0 max_collection_length
  guard (nat_eq s.total_count (s.supported_count + s.unsupported_count + s.unresolved_count))
      (value_error "asset-kind counts must partition the total")
  require_collection s.sample_references "AssetKindSummary.sample_references"
  guard (leb (length s.sample_references) 20)
      (value_error "AssetKindSummary.sample_references exceeds the hard boundary limit")
  guard (is_ordered s.sample_references)
      (value_error "sample references must have unique product UUID ordering")
  guard (all_of_kind s.asset_kind s.sample_references)
      (value_error "sample references must match the summarized asset kind")

unfoldable pub new_kind_summary : AssetKindSummary → Result AssetKindSummary
unfolding check_kind_summary
new_kind_summary s = do check_kind_summary s; ok s

kept : AssetKindSummary → Result AssetKindSummary → AssetKindSummary
kept s (err e) = s
kept s (ok s') = s'

-- A summary that is accepted is the one that was given.
pub new_kind_summary-eq-ok :
    (s : AssetKindSummary) {s' : AssetKindSummary} → new_kind_summary s ≡ ok s' → s' ≡ s
unfolding new_kind_summary kept
new_kind_summary-eq-ok s h =
    let (done_, passed, h1) = >>=-eq-ok (check_kind_summary s) _ h in sym (ap (kept s) h1)

-- `sorted(AssetKind, key=lambda kind: kind.value)`.
abbrev pub asset_kinds : List AssetKind
asset_kinds =
    AssetKind.area ∷ AssetKind.bus ∷ AssetKind.line ∷ AssetKind.load ∷ AssetKind.terminal
    ∷ AssetKind.transformer ∷ []

unfoldable pub same_kinds : List AssetKindSummary → List AssetKind → Bool
same_kinds [] [] = true
same_kinds (c ∷ cs) (k ∷ ks) = kind_eq c.asset_kind k && same_kinds cs ks
same_kinds _ _ = false

-- `sum(getattr(category, field_name) for category in categories)`.
unfoldable pub total_of : (AssetKindSummary → ℕ) → List AssetKindSummary → ℕ
total_of field [] = 0
total_of field (c ∷ cs) = field c + total_of field cs

-- A count of the summary: within the limit, and the sum over the categories.
check_count : ModelSummary → (AssetKindSummary → ℕ) → ℕ → String → String → Result (Unit {0})
check_count s field value bounds sums = do
  require_bounded value bounds 0 s.request.inventory_limit
  guard (nat_eq value (total_of field s.categories)) (value_error sums)

abbrev pub is_unsupported : ExtractionWarningCode → Bool
is_unsupported ExtractionWarningCode.unsupported_object_class = true
is_unsupported ExtractionWarningCode.unresolved_identity = false

-- The codes stand once each in the order of their values: `unresolved_identity` comes first.
unfoldable pub ordered_warnings : List ExtractionWarning → Bool
ordered_warnings [] = true
ordered_warnings (w ∷ []) = true
ordered_warnings (w ∷ v ∷ []) = not (is_unsupported w.code) && is_unsupported v.code
ordered_warnings _ = false

-- `warning_counts == expected_warning_counts`: a code has a warning exactly when its count is not
-- zero, and then with that count.
abbrev pub counted : Option ExtractionWarning → ℕ → Bool
counted none expected = nat_eq expected 0
counted (some w) expected = nat_eq w.count expected && ltb 0 expected

unfoldable pub warning_of : Bool → List ExtractionWarning → Option ExtractionWarning
warning_of unsupported [] = none
warning_of unsupported (w ∷ ws) =
    if (if unsupported then is_unsupported w.code else not (is_unsupported w.code))
    then some w
    else warning_of unsupported ws

unfoldable pub new_model_summary : ModelSummary → Result ModelSummary
unfolding check_count
new_model_summary s = do
  guard (s.binding.exact_project_key == s.request.exact_project_key)
      (value_error "model summary request and binding project must match")
  guard (ltb 0 (length s.categories)) (value_error "ModelSummary.categories must not be empty")
  require_collection s.categories "ModelSummary.categories"
  guard (same_kinds s.categories asset_kinds)
      (value_error "model summary must contain every admitted asset kind in deterministic order")
  refuse (any (λ c. ltb s.request.sample_limit_per_kind (length c.sample_references)) s.categories)
      (value_error "model summary sample count exceeds the requested limit")
  refuse
      (any (λ c. not (all_of_project s.binding.exact_project_key c.sample_references)) s.categories)
      (value_error "model summary samples must match the exact project binding")
  check_count s (λ c. c.total_count) s.total_count "ModelSummary.total_count"
      "ModelSummary.total_count must equal the category sum"
  check_count s (λ c. c.supported_count) s.supported_count "ModelSummary.supported_count"
      "ModelSummary.supported_count must equal the category sum"
  check_count s (λ c. c.unsupported_count) s.unsupported_count "ModelSummary.unsupported_count"
      "ModelSummary.unsupported_count must equal the category sum"
  check_count s (λ c. c.unresolved_count) s.unresolved_count "ModelSummary.unresolved_count"
      "ModelSummary.unresolved_count must equal the category sum"
  guard (nat_eq s.total_count (s.supported_count + s.unsupported_count + s.unresolved_count))
      (value_error "model summary counts must partition the total")
  require_collection s.warnings "ModelSummary.warnings"
  guard (ordered_warnings s.warnings)
      (value_error "model summary warnings must have unique deterministic code ordering")
  refuse (any (λ w. ltb s.request.warning_example_limit (length w.examples)) s.warnings)
      (value_error "model summary warning examples exceed the requested limit")
  guard
      (counted (warning_of true s.warnings) s.unsupported_count
        && counted (warning_of false s.warnings) s.unresolved_count)
      (value_error "model summary warning counts must match unsupported and unresolved totals")
  ok s

unfoldable pub new_list_request : ComponentListRequest → Result ComponentListRequest
new_list_request r = do
  require_text r.exact_project_key "ComponentListRequest.exact_project_key" 512
  require_bounded r.page_size "ComponentListRequest.page_size" 1 max_page_size
  ok r

unfoldable pub new_component_page : ComponentPage → Result ComponentPage
new_component_page p = do
  guard (p.binding.exact_project_key == p.request.exact_project_key)
      (value_error "component request and binding project must match")
  require_collection p.items "ComponentPage.items"
  guard (leb (length p.items) p.request.page_size)
      (value_error "component page exceeds the requested page size")
  guard (is_ordered p.items)
      (value_error "component page items must have unique product UUID ordering")
  guard (all_of_kind p.request.asset_kind p.items)
      (value_error "component page item kind must match the request")
  guard (all_of_project p.binding.exact_project_key p.items)
      (value_error "component page items must match the exact project binding")
  require_collection p.warnings "ComponentPage.warnings"
  guard (ordered_warnings p.warnings)
      (value_error "component page warnings must have unique deterministic code ordering")
  ok p

unfoldable pub new_lookup_request : AssetLookupRequest → Result AssetLookupRequest
new_lookup_request r = do
  require_text r.exact_object_class "AssetLookupRequest.exact_object_class" 128
  require_text r.exact_project_key "AssetLookupRequest.exact_project_key" 512
  require_bounded r.page_size "AssetLookupRequest.page_size" 1 max_page_size
  require_bounded r.inventory_limit "AssetLookupRequest.inventory_limit" 1 max_collection_length
  ok r

unfoldable pub new_lookup_result : AssetLookupResult → Result AssetLookupResult
new_lookup_result r = do
  guard (r.binding.exact_project_key == r.request.exact_project_key)
      (value_error "lookup request and binding project must match")
  guard (r.asset.product_identity == r.request.product_identity)
      (value_error "lookup result product UUID must match exactly")
  guard (kind_eq r.asset.asset_kind r.request.asset_kind)
      (value_error "lookup result asset kind must match exactly")
  guard (r.asset.locator.object_class == r.request.exact_object_class)
      (value_error "lookup result object class must match exactly")
  guard (r.asset.project_key == r.request.exact_project_key)
      (value_error "lookup result project must match exactly")
  ok r
