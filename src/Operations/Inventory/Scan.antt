-- ===== src/Operations/Inventory/Scan.antt =====
-- The bounded traversal of operations/inventory.py: `_page` and `_scan`. The items that the
-- generator `_scan` yields go to the body of the loop that reads it, `consume`.
use powerfactory_mcp.Prelude.{
  ℕ, zero, suc, ◌-◌, String, Bool, true, false, ◌||◌, ◌==◌, ltb, Option, none, some, List, [], ◌∷◌,
}
use powerfactory_mcp.Errors.{
  Result, ok, err, inventory_service_error, InventoryServiceErrorCode, guard, refuse, ◌>>=◌, ◌>>◌,
}
use powerfactory_mcp.Domain.Values.{revision_eq}
use powerfactory_mcp.Domain.Assets.{
  AssetReference, ModelContext, InventoryQuery, InventoryPage, PageCursor, query_eq,
}
use powerfactory_mcp.Domain.Assets.Checks.{new_page_cursor, new_inventory_query}
use powerfactory_mcp.Domain.Inventory.Checks.{contains}
use powerfactory_mcp.Operations.Run.{Run}

-- The gateway that a service reads. What it answers depends on the query alone: the model does not
-- change while an operation runs.
pub record InventoryGateway : Type 0 where
  pub active_context : Result ModelContext
  pub inventory : InventoryQuery → Result InventoryPage

unfoldable pub read_page : InventoryGateway → InventoryQuery → Result InventoryPage
read_page gateway q = do
  page ← gateway.inventory q
  guard (page.query.configuration_key == q.configuration_key)
      (inventory_service_error InventoryServiceErrorCode.other_configuration)
  guard (revision_eq page.query.extraction_revision q.extraction_revision)
      (inventory_service_error InventoryServiceErrorCode.revision_mismatch)
  guard (query_eq page.query q)
      (inventory_service_error InventoryServiceErrorCode.invalid_gateway_response)
  ok page

-- What one turn of `while True` comes to: the last page, or the next query.
pub data Turn (S : Type 0) : Type 0 where
  last_page : S → Turn S
  next_page : InventoryQuery → List String → ℕ → S → Turn S

-- `query.cursor is not None and token == query.cursor.token`.
abbrev pub is_cursor : Option PageCursor → PageCursor → Bool
is_cursor none token = false
is_cursor (some c) token = token == c

module _ {S : Type 0} (consume : AssetReference → S → Result S) (limit : ℕ) where
  -- The items of a page, each counted before it is yielded.
  unfoldable pub yield_items : List AssetReference → ℕ → S → Result (ℕ × S)
  yield_items [] scanned s = ok (scanned, s)
  yield_items (item ∷ items) scanned s = do
    refuse (ltb limit (suc scanned))
        (inventory_service_error InventoryServiceErrorCode.bound_exceeded)
    s' ← consume item s
    yield_items items (suc scanned) s'

  unfoldable pub follow : Option PageCursor → InventoryQuery → List String → ℕ → S → Result (Turn S)
  follow none q seen scanned s = ok (Turn.last_page s)
  follow (some token) q seen scanned s = do
    refuse (contains seen token || is_cursor q.cursor token)
        (inventory_service_error InventoryServiceErrorCode.cursor_loop)
    cursor ← new_page_cursor token
    q' ← new_inventory_query (record q { cursor = some cursor })
    ok (Turn.next_page q' (token ∷ seen) scanned s)

  unfoldable pub turn : InventoryGateway → InventoryQuery → List String → ℕ → S → Result (Turn S)
  turn gateway q seen scanned s = do
    page ← read_page gateway q
    state ← yield_items page.items scanned s
    follow page.next_cursor q seen state.0 state.1

  unfoldable pub scan_pages : ℕ → InventoryGateway → InventoryQuery → List String → ℕ → S → Run S
  scan_pages zero gateway q seen scanned s = none
  scan_pages (suc fuel) gateway q seen scanned s = elim (turn gateway q seen scanned s) [
    | err e ↦ some (err e)
    | ok (Turn.last_page s') ↦ some (ok s')
    | ok (Turn.next_page q' seen' scanned' s') ↦ scan_pages fuel gateway q' seen' scanned' s'
  ]

-- `_scan(query, limit - spent)`: a negative limit is refused first.
unfoldable pub scan :
    {S : Type 0}
    → (AssetReference → S → Result S)
    → ℕ
    → InventoryGateway
    → InventoryQuery
    → ℕ
    → ℕ
    → S
    → Run S
scan consume fuel gateway q limit spent s = elim (ltb limit spent) [
  | true ↦ some (err (inventory_service_error InventoryServiceErrorCode.bound_exceeded))
  | false ↦ scan_pages consume (limit - spent) fuel gateway q [] 0 s
]
