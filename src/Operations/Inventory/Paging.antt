-- ===== src/Operations/Inventory/Paging.antt =====
-- What a service assumes of a gateway that pages: the items of a query are handed out in pieces of
-- its page size, each with a cursor for the next one.
use powerfactory_mcp.Prelude.{
  ℕ, zero, suc, ◌+◌, ◌<◌, ◌≤◌, ◌⊎◌, ◌≡◌, refl, true, false, ◌==◌, ltb, nat_eq, eq_refl, String,
  Option, none, some, List, length, take, drop, arith, if◌then◌else◌,
}
use powerfactory_mcp.Errors.{ok}
use powerfactory_mcp.Domain.Values.{opt_eq}
use powerfactory_mcp.Domain.Assets.{
  AssetReference, InventoryQuery, InventoryPage, PageCursor, opt_kind_eq, kind_eq_refl, AssetKind,
}
use powerfactory_mcp.Domain.Assets.Checks.{new_page_cursor, new_inventory_query}
use powerfactory_mcp.Operations.Inventory.Scan.{InventoryGateway, read_page}

-- Offset 0 has no cursor.
abbrev pub cursor_at : (ℕ → PageCursor) → ℕ → Option PageCursor
cursor_at token zero = none
cursor_at token (suc k) = some (token (suc k))

abbrev pub query_at : (ℕ → PageCursor) → InventoryQuery → ℕ → InventoryQuery
query_at token q k = record q { cursor = cursor_at token k }

abbrev pub next_at : (ℕ → PageCursor) → ℕ → ℕ → Option PageCursor
next_at token k total = if ltb k total then some (token k) else none

abbrev pub page_at : (ℕ → PageCursor) → InventoryQuery → List AssetReference → ℕ → InventoryPage
page_at token q items k = record {
  query = query_at token q k;
  items = take q.page_size (drop k items);
  next_cursor = next_at token (k + q.page_size) (length items);
  deterministic_order = true;
}

-- `token k` continues at offset `k`.
pub record Pages (gateway : InventoryGateway) (q : InventoryQuery) (items : List AssetReference)
    (token : ℕ → PageCursor) : Type 0 where
  pub valid : new_inventory_query q ≡ ok q
  pub size : 1 ≤ q.page_size
  pub answers :
      (k : ℕ)
      → (k ≡ 0) ⊎ (k < length items)
      → gateway.inventory (query_at token q k) ≡ ok (page_at token q items k)
  pub text : (k : ℕ) → 0 < k → k < length items → new_page_cursor (token k) ≡ ok (token k)
  pub distinct : (j k : ℕ) → 0 < j → j < k → k < length items → (token j == token k) ≡ false

pub opt_eq_refl : (o : Option String) → opt_eq o o ≡ true
opt_eq_refl none = refl
opt_eq_refl (some s) = eq_refl s

opt_kind_eq_refl : (o : Option AssetKind) → opt_kind_eq o o ≡ true
opt_kind_eq_refl none = refl
opt_kind_eq_refl (some k) = kind_eq_refl k

pub nat_eq_refl : (n : ℕ) → nat_eq n n ≡ true
nat_eq_refl n = ground arith

-- A page that answers its own query passes the checks.
pub read_page_lem :
    (gateway : InventoryGateway) (page : InventoryPage)
    → gateway.inventory page.query ≡ ok page
    → read_page gateway page.query ≡ ok page
unfolding read_page
read_page_lem gateway page h = rw h (simp (eq_refl, nat_eq_refl, opt_eq_refl, opt_kind_eq_refl))

-- The check of a query does not look at its cursor.
pub new_inventory_query-cursor :
    (q : InventoryQuery) (c : Option PageCursor)
    → new_inventory_query q ≡ ok q
    → new_inventory_query (record q { cursor = c }) ≡ ok (record q { cursor = c })
unfolding new_inventory_query
new_inventory_query-cursor q c h = ground arith
