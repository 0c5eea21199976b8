-- ===== src/Scenarios/Inventory.antt =====
-- The theorems on the inventory service, at a harness with two buses and pages of one item.
use powerfactory_mcp.Prelude.{
  ℕ, zero, suc, ◌<◌, ◌≡◌, ◌≢◌, refl, true, false, ◌==◌, String, Option, none, some, List, [], ◌∷◌,
  length, arith,
}
use powerfactory_mcp.Errors.{ok}
use powerfactory_mcp.Table.{any, count, find, select}
use powerfactory_mcp.Domain.Values.Checks.{require_text}
use powerfactory_mcp.Domain.Assets.{
  AssetKind, AssetReference, FreshnessLevel, IdentityLifecycleState, InventoryQuery, LocatorKind,
  LocatorTrust, ModelContext, PageCursor, PowerFactoryLocator,
}
use powerfactory_mcp.Domain.Assets.Checks.{
  codes_le, new_inventory_page, identities, is_sorted, new_inventory_query, new_page_cursor,
  require_bounded, require_collection,
}
use powerfactory_mcp.Domain.Inventory.{AssetKindSummary, AssetLookupRequest, ModelSummaryRequest}
use powerfactory_mcp.Domain.Inventory.Checks.{all_distinct, is_ordered, new_kind_summary}
use powerfactory_mcp.Operations.Inventory.{lookup, looked_up, no_tally, query_for, summarize_kinds}
use powerfactory_mcp.Operations.Inventory.Scan.{
  InventoryGateway, follow, read_page, scan, scan_pages, turn, yield_items,
}
use powerfactory_mcp.Operations.Inventory.Items.{
  Found, Tally, active_context, admit_unique, look_at, project_keys, summarize_item,
  supported_classes, validate_item_scope,
}
use powerfactory_mcp.Operations.Inventory.Paging.{Pages, cursor_at, query_at}
use powerfactory_mcp.Operations.Inventory.Traversal.{limited, scan-Pages}
use powerfactory_mcp.Operations.Inventory.Ending.{Fills, endless, scan-ends, scan-endless}
use powerfactory_mcp.Operations.Inventory.Lookup.{is_wanted, lookup-finds}
use powerfactory_mcp.Operations.Inventory.Balance.{Counted, summarize_kinds-Counted, summary_of}
use powerfactory_mcp.Operations.Inventory.Summaries.{Accepted, summarize_kinds-returns}
use powerfactory_mcp.Operations.Run.{Ends}
use powerfactory_mcp.Gateway.Harness.{
  inventory, offset_of, page_from, decode_cursor, CursorCodec, CursorPayload, Harness, identity_at,
  inventory_gateway, model_context_id, selected,
}
use powerfactory_mcp.Gateway.Harness.Paged.{Serves, inventory_gateway-Pages, payload_at, token_at}
use powerfactory_mcp.Scenarios.Data.{at_time, id_a, id_b, id_c}

abbrev locator : PowerFactoryLocator
locator = record {
  locator_version_id = id_c;
  locator_kind = LocatorKind.canonical_path_fallback;
  project_provenance = record {
    installation_id = "site";
    profile_id = "profile";
    project_key = "grid";
    project_evidence = "fixture";
  };
  object_class = "ElmTerm";
  native_field = none;
  native_value = none;
  canonical_path = some "grid/bus";
  evidence_schema = record {
    name = "locator";
    version = "v1";
    gateway_adapter_version = "fake/0.1";
  };
  observed_at = at_time 1;
  session_id = "session";
  trust = LocatorTrust.fallback;
  native_evidence_accepted = false;
}

abbrev bus : String → AssetReference
bus identity = record {
  product_identity = identity;
  locator = locator;
  display_name = "bus";
  asset_kind = AssetKind.bus;
  project_key = "grid";
  lifecycle_state = IdentityLifecycleState.active;
}

abbrev buses : List AssetReference
buses = bus id_a ∷ bus id_b ∷ []

abbrev context : ModelContext
context = record {
  model_context_id = model_context_id;
  configuration_key = "key";
  powerfactory_version = "fake-2026";
  assets = buses;
  extraction_revision = record { scope_id = model_context_id; counter = 1 };
  extracted_at = at_time 1;
  freshness = record {
    level = FreshnessLevel.cached;
    observed_at = at_time 1;
    session_id = "session";
    configuration_key = "key";
    dependency_set = record { name = "loads"; version = "v1" };
    evidence_reference = "fake";
    policy_name = "policy";
    policy_version = "v1";
    operation_active = false;
  };
  dependency_fingerprints = [];
}

abbrev harness : Harness
harness = record { configuration = "key"; assets = buses; now = 1000; context = context }

abbrev of_kind : AssetKind → InventoryQuery
of_kind kind = query_for context kind "grid" 1 none

-- One cursor is handed out, that for offset 1.
abbrev second : CursorPayload
second = record {
  schema = "fake-inventory-cursor/v1";
  query_digest = "digest";
  configuration_key = "key";
  extraction_revision = record { scope_id = model_context_id; counter = 1 };
  sort = "product_uuid_asc";
  last_product_uuid = some id_a;
  offset = 1;
  requested_page_size = 1;
  effective_page_size = 1;
  issued_at = 1000;
  expires_at = 1300;
}

abbrev codec : CursorCodec
codec = record {
  seal = λ p. "cursor";
  opened = λ t. some second;
  digest = λ kind key project revision sort. "digest";
}

abbrev gateway : InventoryGateway
gateway = inventory_gateway codec harness

abbrev q : InventoryQuery
q = of_kind AssetKind.bus

opens :
    (k : ℕ)
    → 0 < k
    → k < length (selected harness q)
    → codec.opened (token_at codec harness q k) ≡ some (payload_at codec harness q k)
unfolding selected select identity_at
opens zero first within = absurd (omega arith)
opens (suc zero) first within = refl
opens (suc (suc k)) first within = absurd (omega arith)

serves : Serves codec harness q
unfolding new_inventory_query require_text require_bounded is_sorted identities codes_le
    new_page_cursor
serves = record {
  valid = refl;
  configuration = refl;
  revision = refl;
  ordered = refl;
  opens = opens;
  text = λ k first within. refl;
}

inventory_gateway-Pages_example : Pages gateway q (selected harness q) (token_at codec harness q)
inventory_gateway-Pages_example = inventory_gateway-Pages codec harness q serves

abbrev request : AssetLookupRequest
request = record {
  product_identity = id_b;
  asset_kind = AssetKind.bus;
  exact_object_class = "ElmTerm";
  exact_project_key = "grid";
  page_size = 1;
  inventory_limit = 5;
}

abbrev start : Found
start = record { seen = []; found = none }

few : length (selected harness q) < 3
unfolding selected select
few = omega arith

scan-Pages_example :
    scan (look_at request) 3 gateway (query_at (token_at codec harness q) q 0) 5 0 start
    ≡ some (limited (look_at request) 5 (selected harness q) start)
scan-Pages_example =
    scan-Pages (look_at request) 3 5 0 gateway q (selected harness q) (token_at codec harness q)
      start (inventory_gateway-Pages codec harness q serves) few (omega arith)

lookup-finds_example :
    lookup 3 gateway request
    ≡ some (looked_up request context (find (is_wanted request) (selected harness q)))
unfolding inventory_gateway active_context project_keys supported_classes any selected select
lookup-finds_example =
    lookup-finds 3 gateway request context (selected harness q) (token_at codec harness q) refl refl
      (inventory_gateway-Pages codec harness q serves) ((refl, refl, (refl, refl, tt)))
      (omega arith) (omega arith)

-- A gateway with one page, and a query of it.
abbrev one_page : InventoryGateway
one_page = record {
  active_context = ok context;
  inventory = λ p.
      ok (record {
        query = p;
        items = bus id_a ∷ [];
        next_cursor = none;
        deterministic_order = true;
      });
}

fills : Fills one_page
fills p page token h e = absurd (none_some (cc h) e)
  where
    none_some : page.next_cursor ≡ none → page.next_cursor ≡ some token → ⊥
    none_some a b = cc

scan-ends_example : scan (look_at request) 6 one_page q 5 0 start ≢ none
scan-ends_example = scan-ends (look_at request) 6 5 0 one_page q start fills (omega arith)

abbrev token : ℕ → PageCursor
token zero = "t0"
token (suc zero) = "t1"
token (suc (suc k)) = "t2"

abbrev next : Option PageCursor → PageCursor
next none = "t1"
next (some c) = "t2"

steps : (k : ℕ) → k < 2 → next (cursor_at token k) ≡ token (suc k)
steps zero h = refl
steps (suc zero) h = refl
steps (suc (suc k)) h = absurd (omega arith)

texts : (k : ℕ) → k < 2 → new_page_cursor (token (suc k)) ≡ ok (token (suc k))
unfolding new_page_cursor require_text
texts zero h = refl
texts (suc zero) h = refl
texts (suc (suc k)) h = absurd (omega arith)

apart : (j k : ℕ) → j < k → k < 3 → (token j == token k) ≡ false
apart zero zero h m = absurd (omega arith)
apart zero (suc zero) h m = refl
apart zero (suc (suc k)) h m = refl
apart (suc zero) zero h m = absurd (omega arith)
apart (suc zero) (suc zero) h m = absurd (omega arith)
apart (suc zero) (suc (suc k)) h m = refl
apart (suc (suc j)) k h m = absurd (omega arith)

scan-endless_example :
    scan (look_at request) 2 (endless next one_page) (query_at token q 0) 5 0 start ≡ none
scan-endless_example =
    scan-endless (look_at request) 2 5 0 one_page q token next start serves.valid steps texts
      (λ j k h m. apart j k h (omega arith)) (omega arith)

abbrev summary_request : ModelSummaryRequest
summary_request = record {
  exact_project_key = "grid";
  page_size = 1;
  inventory_limit = 5;
  sample_limit_per_kind = 1;
  warning_example_limit = 1;
}

-- The buses of the harness, counted through two pages.
abbrev counted : List AssetKindSummary × Tally
counted = (
  summary_of summary_request AssetKind.bus buses ∷ [],
  record no_tally {
    seen = id_b ∷ id_a ∷ [];
    scanned = 2;
    total = 2;
    supported = 2;
    samples = bus id_a ∷ [];
  },
)

counts :
    summarize_kinds 3 gateway summary_request context (AssetKind.bus ∷ []) no_tally
    ≡ some (ok counted)
unfolding summarize_kinds scan scan_pages turn read_page yield_items follow summarize_item
    admit_unique validate_item_scope supported_classes new_kind_summary new_inventory_query
    require_text require_bounded require_collection is_ordered is_sorted identities all_distinct any
    inventory_gateway selected select identity_at inventory offset_of page_from new_inventory_page
    new_page_cursor decode_cursor count
counts = refl

abbrev items_of : AssetKind → List AssetReference
items_of kind = selected harness (of_kind kind)

abbrev tokens_of : AssetKind → ℕ → PageCursor
tokens_of kind = token_at codec harness (of_kind kind)

summarize_kinds-Counted_example :
    Ends
      (Counted 3 gateway summary_request context items_of tokens_of no_tally (AssetKind.bus ∷ []))
      (summarize_kinds 3 gateway summary_request context (AssetKind.bus ∷ []) no_tally)
summarize_kinds-Counted_example =
    summarize_kinds-Counted 3 gateway summary_request context items_of tokens_of
      (AssetKind.bus ∷ []) no_tally (inventory_gateway-Pages codec harness q serves, few, tt)

bus_facts : Accepted 3 gateway summary_request context items_of tokens_of (AssetKind.bus ∷ []) [] 0
unfolding any selected select count new_kind_summary require_text require_bounded require_collection
    is_ordered is_sorted identities all_distinct identity_at supported_classes new_inventory_query
bus_facts = ((refl, refl, (refl, refl, tt)), omega arith, refl, tt)

summarize_kinds-returns_example :
    (last : Tally) × (summarize_kinds 3 gateway summary_request context
        (AssetKind.bus ∷ [])
        no_tally
      ≡ some (ok (summary_of summary_request AssetKind.bus (items_of AssetKind.bus) ∷ [], last)))
summarize_kinds-returns_example =
    summarize_kinds-returns 3 gateway summary_request context items_of tokens_of
      (AssetKind.bus ∷ []) no_tally (inventory_gateway-Pages codec harness q serves, few, tt)
      bus_facts
