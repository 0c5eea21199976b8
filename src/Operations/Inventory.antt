-- ===== src/Operations/Inventory.antt =====
-- operations/inventory.py: the service. A traversal takes fuel, one unit for a page.
pub mod Scan
pub mod Items
pub mod Paging
pub mod Traversal
pub mod Ending
pub mod Lookup
pub mod Tallies
pub mod Balance
pub mod Summaries
use powerfactory_mcp.Prelude.{
  ℕ, String, Bool, true, false, not, ◌==◌, Option, none, some, List, [], ◌∷◌, ◌++◌,
}
use powerfactory_mcp.Errors.{
  Error, Result, ok, err, inventory_service_error, InventoryServiceErrorCode, guard, refuse, ◌>>◌,
}
use powerfactory_mcp.Errors
use powerfactory_mcp.Domain.Assets.{
  AssetKind, AssetReference, ModelContext, InventoryQuery, InventoryPage, PageCursor, is_active,
}
use powerfactory_mcp.Domain.Assets.Checks.{new_inventory_query}
use powerfactory_mcp.Domain.Inventory.{
  AssetKindSummary, AssetLookupRequest, AssetLookupResult, ComponentListRequest, ComponentPage,
  InventoryBinding, ModelSummary, ModelSummaryRequest,
}
use powerfactory_mcp.Domain.Inventory.Checks.{
  contains, new_component_page, new_kind_summary, new_lookup_result, new_model_summary, asset_kinds,
  total_of,
}
use powerfactory_mcp.Operations.Run.{Run, ◌>>=◌}
use Scan.{InventoryGateway, read_page, scan, is_cursor}
use Items.{
  active_context, binding, supported_classes, no_warnings, warnings_of, list_item, Warnings, Found,
  look_at, Tally, summarize_item,
}

-- The query of a service for the items of one kind.
abbrev pub query_for : ModelContext → AssetKind → String → ℕ → Option PageCursor → InventoryQuery
query_for context kind exact_project_key page_size cursor = record {
  configuration_key = context.configuration_key;
  extraction_revision = context.extraction_revision;
  asset_kind = some kind;
  exact_project_key = some exact_project_key;
  page_size = page_size;
  cursor = cursor;
  sort_specification = "product_uuid_asc";
}

list_items :
    AssetKind
    → String
    → List AssetReference
    → List String × Warnings
    → Result (List String × Warnings)
list_items kind key [] s = ok s
list_items kind key (item ∷ items) s =
    Errors.◌>>=◌ (list_item kind key item s) (λ s'. list_items kind key items s')

-- `request.cursor is not None and page.next_cursor == request.cursor`
abbrev stands_still : Option PageCursor → Option PageCursor → Bool
stands_still none next = false
stands_still (some c) next = is_cursor next c

made_page :
    InventoryGateway → ComponentListRequest → ModelContext → InventoryPage → Result ComponentPage
unfolding list_items
made_page gateway r context page =
    Errors.◌>>=◌ (list_items r.asset_kind r.exact_project_key page.items ([], no_warnings)) λ s.
      refuse (stands_still r.cursor page.next_cursor)
        (inventory_service_error InventoryServiceErrorCode.cursor_loop)
      >> Errors.◌>>=◌ (binding context r.exact_project_key) λ bound.
        Errors.◌>>=◌ (warnings_of s.1) λ ws. new_component_page (record {
          request = r;
          binding = bound;
          items = page.items;
          next_cursor = page.next_cursor;
          warnings = ws;
        })

unfoldable pub list_components : InventoryGateway → ComponentListRequest → Result ComponentPage
unfolding made_page
list_components gateway r = Errors.◌>>=◌ (active_context gateway r.exact_project_key) λ context.
    Errors.◌>>=◌
      (new_inventory_query
        (query_for context r.asset_kind r.exact_project_key r.page_size r.cursor))
      λ q. Errors.◌>>=◌ (read_page gateway q) λ page. made_page gateway r context page

-- The checks of `lookup` on what the traversal found, and its result.
unfoldable pub looked_up :
    AssetLookupRequest → ModelContext → Option AssetReference → Result AssetLookupResult
looked_up r context none = err (inventory_service_error InventoryServiceErrorCode.not_found)
looked_up r context (some asset) =
    guard (is_active asset.lifecycle_state)
      (inventory_service_error InventoryServiceErrorCode.unresolved_identity)
    >> guard (asset.locator.object_class == r.exact_object_class)
        (inventory_service_error InventoryServiceErrorCode.class_mismatch)
    >> Errors.◌>>=◌ (binding context r.exact_project_key)
        λ bound. new_lookup_result (record { request = r; binding = bound; asset = asset })

unfoldable pub lookup : ℕ → InventoryGateway → AssetLookupRequest → Run AssetLookupResult
lookup fuel gateway r = do
  admitted ← some (
      guard (contains (supported_classes r.asset_kind) r.exact_object_class)
        (inventory_service_error InventoryServiceErrorCode.class_mismatch))
  context ← some (active_context gateway r.exact_project_key)
  q ←
      some
        (new_inventory_query (query_for context r.asset_kind r.exact_project_key r.page_size none))
  s ← scan (look_at r) fuel gateway q r.inventory_limit 0 (record { seen = []; found = none })
  some (looked_up r context s.found)

-- A new kind starts with its counts at zero.
abbrev pub fresh_tally : Tally → Tally
fresh_tally t = record t { total = 0; supported = 0; unsupported = 0; unresolved = 0; samples = [] }

abbrev pub kind_summary : AssetKind → Tally → AssetKindSummary
kind_summary kind t = record {
  asset_kind = kind;
  total_count = t.total;
  supported_count = t.supported;
  unsupported_count = t.unsupported;
  unresolved_count = t.unresolved;
  sample_references = t.samples;
}

-- The loop of `summarize` over the asset kinds.
unfoldable pub summarize_kinds :
    ℕ
    → InventoryGateway
    → ModelSummaryRequest
    → ModelContext
    → List AssetKind
    → Tally
    → Run (List AssetKindSummary × Tally)
summarize_kinds fuel gateway r context [] t = some (ok ([], t))
summarize_kinds fuel gateway r context (kind ∷ kinds) t = do
  q ← some (new_inventory_query (query_for context kind r.exact_project_key r.page_size none))
  t' ← scan (summarize_item r kind) fuel gateway q r.inventory_limit t.scanned (fresh_tally t)
  summary ← some (new_kind_summary (kind_summary kind t'))
  rest ← summarize_kinds fuel gateway r context kinds t'
  some (ok (summary ∷ rest.0, rest.1))

abbrev pub no_tally : Tally
no_tally = record {
  seen = [];
  warnings = no_warnings;
  scanned = 0;
  total = 0;
  supported = 0;
  unsupported = 0;
  unresolved = 0;
  samples = [];
}

unfoldable pub summarize : ℕ → InventoryGateway → ModelSummaryRequest → Run ModelSummary
summarize fuel gateway r = do
  context ← some (active_context gateway r.exact_project_key)
  bound ← some (binding context r.exact_project_key)
  done ← summarize_kinds fuel gateway r context asset_kinds no_tally
  ws ← some (warnings_of done.1.warnings)
  some (
      new_model_summary (record {
        request = r;
        binding = bound;
        categories = done.0;
        total_count = total_of (λ c. c.total_count) done.0;
        supported_count = total_of (λ c. c.supported_count) done.0;
        unsupported_count = total_of (λ c. c.unsupported_count) done.0;
        unresolved_count = total_of (λ c. c.unresolved_count) done.0;
        warnings = ws;
      }))
