-- ===== src/Operations/Inventory/Lookup.antt =====
-- `lookup` over a gateway that pages: what it returns is the asset of the inventory with the
-- requested identity.
use powerfactory_mcp.Prelude.{
  ℕ, ◌-◌, ◌<◌, ◌≤◌, ◌≡◌, refl, ap, ◌∙◌, Bool, true, false, ◌&&◌, ◌==◌, eq_iff, leb, Bool-cases, inl,
  inr, String, Option, none, some, List, [], ◌∷◌, length, arith, if◌then◌else◌,
}
use powerfactory_mcp.Errors.{ok}
use powerfactory_mcp.Table.{any, find}
use powerfactory_mcp.Domain.Assets.{AssetReference, ModelContext, PageCursor, kind_eq}
use powerfactory_mcp.Domain.Inventory.{AssetLookupRequest}
use powerfactory_mcp.Domain.Inventory.Checks.{contains}
use powerfactory_mcp.Operations.Inventory.Items.{
  Found, look_at, active_context, admit_unique, supported_classes, validate_item_scope,
}
use powerfactory_mcp.Operations.Inventory.{lookup, looked_up, query_for}
use powerfactory_mcp.Operations.Inventory.Scan.{InventoryGateway}
use powerfactory_mcp.Operations.Inventory.Paging.{Pages}
use powerfactory_mcp.Operations.Inventory.Traversal.{fold_items, limited, scan-Pages}
use powerfactory_mcp.Operations.Run.{◌>>=◌}

-- An item of the request's kind and project.
abbrev pub in_scope : AssetLookupRequest → AssetReference → Bool
in_scope r item =
    kind_eq item.asset_kind r.asset_kind
    && item.project_key == r.exact_project_key
    && item.locator.project_provenance.project_key == r.exact_project_key

-- Every item is in scope, and no identity is in `seen` or twice in the list.
abbrev pub Admissible : AssetLookupRequest → List String → List AssetReference → Type 0
Admissible r seen [] = Unit
Admissible r seen (item ∷ items) =
    (in_scope r item ≡ true)
    × (contains seen item.product_identity ≡ false)
    × Admissible r (item.product_identity ∷ seen) items

abbrev pub is_wanted : AssetLookupRequest → AssetReference → Bool
is_wanted r item = item.product_identity == r.product_identity

-- The last of the items that are wanted, or `found`.
abbrev pub last_wanted :
    AssetLookupRequest → List AssetReference → Option AssetReference → Option AssetReference
last_wanted r [] found = found
last_wanted r (item ∷ items) found =
    last_wanted r items (if is_wanted r item then some item else found)

module _ (r : AssetLookupRequest) where
  look_at-admits :
      (item : AssetReference) (s : Found)
      → in_scope r item ≡ true
      → contains s.seen item.product_identity ≡ false
      → look_at r item s
        ≡ ok (record {
          seen = item.product_identity ∷ s.seen;
          found = if is_wanted r item then some item else s.found;
        })
  unfolding look_at admit_unique validate_item_scope
  look_at-admits item s scope new = ground arith

  -- An admissible list is read to its end.
  fold-look_at :
      (items : List AssetReference) (s : Found)
      → Admissible r s.seen items
      → (seen' : List String) × (fold_items (look_at r) items s
          ≡ ok (record { seen = seen'; found = last_wanted r items s.found }))
  unfolding fold_items
  fold-look_at [] s fit = (s.seen, refl)
  fold-look_at (item ∷ items) s (scope, new, rest) =
      let (seen', read) =
        fold-look_at items
          (record {
            seen = item.product_identity ∷ s.seen;
            found = if is_wanted r item then some item else s.found;
          })
          rest in
      (seen', rw (look_at-admits item s scope new) read)

  -- Behind the wanted item no other one has its identity.
  seen-not_wanted :
      (items : List AssetReference) (seen : List String) (found : Option AssetReference)
      → Admissible r seen items
      → contains seen r.product_identity ≡ true
      → last_wanted r items found ≡ found
  unfolding any
  seen-not_wanted [] seen found fit known = refl
  seen-not_wanted (item ∷ items) seen found (scope, new, rest) known =
      elim (Bool-cases (is_wanted r item)) [
        | inl wanted ↦
            let same : item.product_identity ≡ r.product_identity =
              (eq_iff item.product_identity r.product_identity).0 wanted in
            cc (ap (contains seen) same, new, known)
        | inr other ↦
            rw other
              (seen-not_wanted items (item.product_identity ∷ seen) found rest (rw (other, known)))
      ]

  -- In an admissible list the last wanted item is the first one.
  pub last_wanted-find :
      (items : List AssetReference) (seen : List String)
      → Admissible r seen items
      → last_wanted r items none ≡ find (is_wanted r) items
  unfolding find any
  last_wanted-find [] seen fit = refl
  last_wanted-find (item ∷ items) seen (scope, new, rest) = elim (Bool-cases (is_wanted r item)) [
    | inl wanted ↦
        rw wanted
          (seen-not_wanted items (item.product_identity ∷ seen) (some item) rest (rw wanted))
    | inr other ↦ rw other (last_wanted-find items (item.product_identity ∷ seen) rest)
  ]

  pub fold-found :
      (items : List AssetReference)
      → Admissible r [] items
      → (seen' : List String) × (fold_items (look_at r) items (record { seen = []; found = none })
          ≡ ok (record { seen = seen'; found = find (is_wanted r) items }))
  fold-found items fit =
      let (seen', read) = fold-look_at items (record { seen = []; found = none }) fit in
      (
        seen',
        read ∙ ap (λ f. ok (record { seen = seen'; found = f })) (last_wanted-find items [] fit),
      )

-- On a gateway that pages, whose items for the request's kind and project are in scope, have
-- distinct identities and fit the limit, a lookup of an admitted class ends, and comes to the checks
-- of the item with the requested identity: it raises when there is no such item, when its identity
-- is not active or when its class is another one, and returns it otherwise.
pub lookup-finds :
    (fuel : ℕ) (gateway : InventoryGateway) (r : AssetLookupRequest) (context : ModelContext)
    (items : List AssetReference) (token : ℕ → PageCursor)
    → active_context gateway r.exact_project_key ≡ ok context
    → contains (supported_classes r.asset_kind) r.exact_object_class ≡ true
    → Pages gateway
        (query_for context r.asset_kind r.exact_project_key r.page_size none)
        items
        token
    → Admissible r [] items
    → length items ≤ r.inventory_limit
    → length items < fuel
    → lookup fuel gateway r ≡ some (looked_up r context (find (is_wanted r) items))
unfolding lookup
lookup-finds fuel gateway r context items token active admitted pages fit within enough =
    let q = query_for context r.asset_kind r.exact_project_key r.page_size none in
    let start : Found = record { seen = []; found = none } in
    let (seen', read) = fold-found r items fit in
    let few : leb (length items) r.inventory_limit ≡ true = ground arith in
    let run =
      scan-Pages (look_at r) fuel r.inventory_limit 0 gateway q items token start pages enough
        (omega arith) in
    let whole : r.inventory_limit - 0 ≡ r.inventory_limit = omega arith in
    let all_read : limited (look_at r) (r.inventory_limit - 0) items start
        ≡ ok (record { seen = seen'; found = find (is_wanted r) items }) =
      rw (whole, few) read in
    rw (admitted, active, pages.valid)
      (ap (λ m. m >>= λ s. some (looked_up r context s.found)) (run ∙ ap some all_read))
