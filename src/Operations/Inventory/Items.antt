-- ===== src/Operations/Inventory/Items.antt =====
-- What operations/inventory.py does with one item, and with the active context.
use Prim.Native.String.{◌++◌ as ◌+text◌}
use powerfactory_mcp.Prelude.{
  ℕ, ◌+◌, suc, String, Bool, not, ◌&&◌, ◌==◌, nat_eq, ltb, Option, none, some, List, [], ◌∷◌, ◌++◌,
  length, if◌then◌else◌,
}
use powerfactory_mcp.Errors.{
  Result, ok, inventory_service_error, InventoryServiceErrorCode, guard, refuse, ◌>>=◌, ◌>>◌,
}
use powerfactory_mcp.Domain.Assets.{
  AssetKind, AssetReference, IdentityLifecycleState, ModelContext, kind_eq, is_active,
}
use powerfactory_mcp.Domain.Inventory.{
  ExtractionWarning, ExtractionWarningCode, InventoryBinding, AssetLookupRequest,
  ModelSummaryRequest,
}
use powerfactory_mcp.Domain.Inventory.Checks.{
  contains, new_inventory_binding, new_extraction_warning,
}
use powerfactory_mcp.Operations.Inventory.Scan.{InventoryGateway}

unfoldable pub supported_classes : AssetKind → List String
supported_classes AssetKind.area = "ElmArea" ∷ []
supported_classes AssetKind.bus = "ElmTerm" ∷ []
supported_classes AssetKind.line = "ElmLne" ∷ []
supported_classes AssetKind.load = "ElmLod" ∷ []
supported_classes AssetKind.terminal = "ElmTerm" ∷ []
supported_classes AssetKind.transformer = "ElmTr2" ∷ "ElmTr3" ∷ []

-- `{item.project_key for item in context.assets}`
unfoldable pub project_keys : List AssetReference → List String
project_keys [] = []
project_keys (a ∷ rest) =
    let keys = project_keys rest in
    if contains keys a.project_key then keys else a.project_key ∷ keys

-- `_active_context`
unfoldable pub active_context : InventoryGateway → String → Result ModelContext
active_context gateway exact_project_key = do
  context ← gateway.active_context
  refuse (nat_eq (length (project_keys context.assets)) 0)
      (inventory_service_error InventoryServiceErrorCode.invalid_gateway_response)
  guard (nat_eq (length (project_keys context.assets)) 1)
      (inventory_service_error InventoryServiceErrorCode.invalid_gateway_response)
  guard (contains (project_keys context.assets) exact_project_key)
      (inventory_service_error InventoryServiceErrorCode.project_mismatch)
  ok context

-- `_binding`
unfoldable pub binding : ModelContext → String → Result InventoryBinding
binding context exact_project_key = new_inventory_binding (record {
  configuration_key = context.configuration_key;
  extraction_revision = context.extraction_revision;
  freshness = context.freshness;
  exact_project_key = exact_project_key;
})

-- `_admit_unique`, which adds the item to the set `seen`.
unfoldable pub admit_unique : AssetReference → List String → Result (List String)
admit_unique item seen = do
  refuse (contains seen item.product_identity)
      (inventory_service_error InventoryServiceErrorCode.duplicate_product_identity)
  ok (item.product_identity ∷ seen)

-- `_validate_item_scope`
unfoldable pub validate_item_scope : AssetReference → AssetKind → String → Result (Unit {0})
validate_item_scope item kind exact_project_key = do
  guard (kind_eq item.asset_kind kind)
      (inventory_service_error InventoryServiceErrorCode.class_mismatch)
  guard
      (item.project_key == exact_project_key
        && item.locator.project_provenance.project_key == exact_project_key)
      (inventory_service_error InventoryServiceErrorCode.project_mismatch)

-- `_WarningAccumulator`, and the dictionary of them by warning code.
pub record WarningAccumulator : Type 0 where
  pub count : ℕ
  pub examples : List String

pub record Warnings : Type 0 where
  pub unresolved : Option WarningAccumulator
  pub unsupported : Option WarningAccumulator

abbrev pub no_warnings : Warnings
no_warnings = record { unresolved = none; unsupported = none }

-- `warnings.setdefault(code, _WarningAccumulator(0, []))`
abbrev pub or_new : Option WarningAccumulator → WarningAccumulator
or_new none = record { count = 0; examples = [] }
or_new (some w) = w

abbrev pub noted : WarningAccumulator → String → ℕ → WarningAccumulator
noted w example limit = record {
  count = w.count + 1;
  examples =
      if ltb (length w.examples) limit && not (contains w.examples example)
      then w.examples ++ example ∷ []
      else w.examples;
}

-- `_warn`
unfoldable pub warn : Warnings → ExtractionWarningCode → String → ℕ → Warnings
warn ws ExtractionWarningCode.unresolved_identity example limit = record ws {
  unresolved = some (noted (or_new ws.unresolved) example limit);
}
warn ws ExtractionWarningCode.unsupported_object_class example limit = record ws {
  unsupported = some (noted (or_new ws.unsupported) example limit);
}

warning : ExtractionWarningCode → Option WarningAccumulator → Result (List ExtractionWarning)
warning code none = ok []
warning code (some w) = do
  made ← new_extraction_warning (record { code = code; count = w.count; examples = w.examples })
  ok (made ∷ [])

-- `_warnings`, in the order of the codes.
unfoldable pub warnings_of : Warnings → Result (List ExtractionWarning)
unfolding warning
warnings_of ws = do
  unresolved ← warning ExtractionWarningCode.unresolved_identity ws.unresolved
  unsupported ← warning ExtractionWarningCode.unsupported_object_class ws.unsupported
  ok (unresolved ++ unsupported)

abbrev lifecycle_value : IdentityLifecycleState → String
lifecycle_value IdentityLifecycleState.active = "active"
lifecycle_value IdentityLifecycleState.unresolved = "unresolved"
lifecycle_value IdentityLifecycleState.tombstoned = "tombstoned"

-- The examples of the two warnings of an item.
unfoldable pub unresolved_example : AssetReference → String
unresolved_example item =
    item.product_identity +text (":" +text lifecycle_value item.lifecycle_state)

unfoldable pub unsupported_example : AssetReference → String
unsupported_example item = item.product_identity +text (":" +text item.locator.object_class)

-- How an item counts: `unresolved`, else `unsupported`, else `supported`.
abbrev pub is_unresolved : AssetReference → Bool
is_unresolved item = not (is_active item.lifecycle_state)

abbrev pub has_class : AssetKind → AssetReference → Bool
has_class kind item = contains (supported_classes kind) item.locator.object_class

-- The body of the loop of `list_components`.
unfoldable pub list_item :
    AssetKind → String → AssetReference → List String × Warnings → Result (List String × Warnings)
list_item kind exact_project_key item (seen, ws) = do
  seen' ← admit_unique item seen
  validate_item_scope item kind exact_project_key
  ok (
    seen',
    if is_unresolved item
        then warn ws ExtractionWarningCode.unresolved_identity (unresolved_example item) 3
        else if not (has_class kind item)
        then warn ws ExtractionWarningCode.unsupported_object_class (unsupported_example item) 3
        else ws,
  )

-- The body of the loop of `lookup`, over `seen` and `found`.
pub record Found : Type 0 where
  pub seen : List String
  pub found : Option AssetReference

unfoldable pub look_at : AssetLookupRequest → AssetReference → Found → Result Found
look_at request item s = do
  seen' ← admit_unique item s.seen
  validate_item_scope item request.asset_kind request.exact_project_key
  ok (record {
    seen = seen';
    found = if item.product_identity == request.product_identity then some item else s.found;
  })

-- The body of the inner loop of `summarize`, over the variables that it sets.
pub record Tally : Type 0 where
  pub seen : List String
  pub warnings : Warnings
  pub scanned : ℕ
  pub total : ℕ
  pub supported : ℕ
  pub unsupported : ℕ
  pub unresolved : ℕ
  pub samples : List AssetReference

-- The three branches.
abbrev pub count_item : ModelSummaryRequest → AssetKind → AssetReference → Tally → Tally
count_item request kind item t =
    if is_unresolved item
    then record t {
      unresolved = suc t.unresolved;
      warnings =
          warn t.warnings ExtractionWarningCode.unresolved_identity (unresolved_example item)
            request.warning_example_limit;
    }
    else if not (has_class kind item)
    then record t {
      unsupported = suc t.unsupported;
      warnings =
          warn t.warnings ExtractionWarningCode.unsupported_object_class (unsupported_example item)
            request.warning_example_limit;
    }
    else record t { supported = suc t.supported }

unfoldable pub summarize_item :
    ModelSummaryRequest → AssetKind → AssetReference → Tally → Result Tally
summarize_item request kind item t = do
  seen' ← admit_unique item t.seen
  validate_item_scope item kind request.exact_project_key
  ok (
      count_item request kind item (record t {
        seen = seen';
        scanned = suc t.scanned;
        total = suc t.total;
        samples =
            if ltb (length t.samples) request.sample_limit_per_kind
            then t.samples ++ item ∷ []
            else t.samples;
      }))
