-- ===== src/Gateway/Harness.antt =====
-- gateway/fake.py: the inventory of `DeterministicHeadlineHarness`, and its cursors.
pub mod Order
pub mod Paged
use powerfactory_mcp.Prelude.{
  ℕ, zero, suc, ◌+◌, ◌-◌, String, Bool, true, false, not, ◌&&◌, ◌==◌, nat_eq, leb, ltb, Option,
  none, some, List, [], ◌∷◌, length, take, drop, if◌then◌else◌,
}
use powerfactory_mcp.Errors.{
  Result, ok, err, configuration_mismatch, invalid_operation, cursor_invalid, cursor_stale, guard,
  refuse, ◌>>=◌, ◌>>◌,
}
use powerfactory_mcp.Table.{select}
use powerfactory_mcp.Domain.Values.{ConfigurationKey, revision_eq, opt_eq}
use powerfactory_mcp.Domain.Assets.{
  AssetKind, AssetReference, ExtractionRevision, InventoryPage, InventoryQuery, ModelContext,
  PageCursor, kind_eq,
}
use powerfactory_mcp.Domain.Assets.Checks.{new_inventory_page}
use powerfactory_mcp.Operations.Inventory.Scan.{InventoryGateway}

-- The payload of an inventory cursor; times are whole seconds.
pub record CursorPayload : Type 0 where
  pub schema : String
  pub query_digest : String
  pub configuration_key : ConfigurationKey
  pub extraction_revision : ExtractionRevision
  pub sort : String
  pub last_product_uuid : Option String
  pub offset : ℕ
  pub requested_page_size : ℕ
  pub effective_page_size : ℕ
  pub issued_at : ℕ
  pub expires_at : ℕ

-- The encoding by json, base64 and hmac under the cursor secret: `opened` gives the payload of a
-- token whose signature fits. `digest` is `canonical_digest` of what binds a query.
pub record CursorCodec : Type 0 where
  pub seal : CursorPayload → PageCursor
  pub opened : PageCursor → Option CursorPayload
  pub digest :
      Option AssetKind → ConfigurationKey → Option String → ExtractionRevision → String → String

-- The attributes that the inventory reads. The default clock stands still.
pub record Harness : Type 0 where
  pub configuration : ConfigurationKey
  pub assets : List AssetReference
  pub now : ℕ
  pub context : ModelContext

abbrev pub model_context_id : String
model_context_id = "10000000-0000-4000-8000-000000000001"

abbrev pub cursor_schema : String
cursor_schema = "fake-inventory-cursor/v1"

abbrev pub cursor_ttl : ℕ
cursor_ttl = 300

-- `selected`
abbrev pub fits_kind : Option AssetKind → AssetReference → Bool
fits_kind none item = true
fits_kind (some kind) item = kind_eq item.asset_kind kind

abbrev pub fits_project : Option String → AssetReference → Bool
fits_project none item = true
fits_project (some key) item = item.project_key == key

abbrev pub fits : InventoryQuery → AssetReference → Bool
fits q item = fits_kind q.asset_kind item && fits_project q.exact_project_key item

unfoldable pub selected : Harness → InventoryQuery → List AssetReference
selected h q = select (fits q) h.assets

-- `selected[index].product_identity.value`
unfoldable pub identity_at : List AssetReference → ℕ → Option String
identity_at [] i = none
identity_at (a ∷ rest) zero = some a.product_identity
identity_at (a ∷ rest) (suc i) = identity_at rest i

-- `page[-1].product_identity.value`
unfoldable pub last_identity : List AssetReference → Option String
last_identity [] = none
last_identity (a ∷ []) = some a.product_identity
last_identity (a ∷ b ∷ rest) = last_identity (b ∷ rest)

-- `expected_last`
abbrev pub expected_last : List AssetReference → ℕ → Option String
expected_last items zero = none
expected_last items (suc k) = identity_at items k

module _ (codec : CursorCodec) (h : Harness) where
  abbrev pub query_binding : InventoryQuery → String
  query_binding q =
      codec.digest q.asset_kind q.configuration_key q.exact_project_key q.extraction_revision
        q.sort_specification

  -- `_decode_cursor`, from the opened token on.
  unfoldable pub decode_cursor : PageCursor → Result CursorPayload
  decode_cursor token = elim (codec.opened token) [
    | none ↦ err (cursor_invalid "inventory cursor is malformed")
    | some p ↦
        refuse (ltb p.expires_at p.issued_at)
          (cursor_invalid "inventory cursor lifetime is invalid")
        >> (refuse (leb p.expires_at h.now) (cursor_stale "inventory cursor has expired") >> ok p)
  ]

  -- `any(cursor[name] != value for name, value in expected.items())`, negated.
  abbrev pub is_bound : InventoryQuery → CursorPayload → Bool
  is_bound q p =
      p.schema == cursor_schema
      && p.query_digest == query_binding q
      && p.configuration_key == q.configuration_key
      && revision_eq p.extraction_revision q.extraction_revision
      && p.sort == q.sort_specification
      && nat_eq p.requested_page_size q.page_size

  -- The offset that the query's cursor stands for.
  unfoldable pub offset_of : Option PageCursor → InventoryQuery → List AssetReference → Result ℕ
  offset_of none q items = ok 0
  offset_of (some token) q items = do
    p ← decode_cursor token
    guard (is_bound q p) (cursor_invalid "inventory cursor is bound to another query")
    guard (leb p.offset (length items))
        (cursor_invalid "inventory cursor is outside the result snapshot")
    guard (opt_eq p.last_product_uuid (expected_last items p.offset))
        (cursor_invalid "inventory cursor position does not match the result snapshot")
    ok p.offset

  -- The cursor behind a page that ends at `next_offset`.
  abbrev pub cursor_behind : InventoryQuery → List AssetReference → ℕ → PageCursor
  cursor_behind q page next_offset = codec.seal (record {
    schema = cursor_schema;
    query_digest = query_binding q;
    configuration_key = q.configuration_key;
    extraction_revision = q.extraction_revision;
    sort = q.sort_specification;
    last_product_uuid = last_identity page;
    offset = next_offset;
    requested_page_size = q.page_size;
    effective_page_size = length page;
    issued_at = h.now;
    expires_at = h.now + cursor_ttl;
  })

  unfoldable pub page_from : InventoryQuery → List AssetReference → ℕ → Result InventoryPage
  page_from q items offset =
      let page = take q.page_size (drop offset items) in
      let next_offset = offset + length page in
      new_inventory_page (record {
        query = q;
        items = page;
        next_cursor =
            if ltb next_offset (length items)
            then some (cursor_behind q page next_offset)
            else none;
        deterministic_order = true;
      })

  unfoldable pub inventory : InventoryQuery → Result InventoryPage
  inventory q = do
    guard (q.configuration_key == h.configuration) configuration_mismatch
    guard (revision_eq q.extraction_revision (record { scope_id = model_context_id; counter = 1 }))
        (invalid_operation "inventory query is bound to another extraction revision")
    offset ← offset_of q.cursor q (selected h q)
    page_from q (selected h q) offset

  -- The harness as the gateway of the inventory service.
  unfoldable pub inventory_gateway : InventoryGateway
  inventory_gateway = record { active_context = ok h.context; inventory = inventory }
