-- ===== src/Operations/Inventory/Summaries.antt =====
-- The loop of `summarize` over the kinds returns where nothing is to be refused.
use powerfactory_mcp.Prelude.{
  ℕ, ◌+◌, ◌-◌, ◌≤◌, ◌≡◌, refl, ap, subst, sym, ◌∙◌, true, false, Bool, ◌&&◌, ◌==◌, leb, String,
  some, List, [], ◌∷◌, length, arith, none,
}
use powerfactory_mcp.Errors.{ok}
use powerfactory_mcp.Domain.Assets.{AssetKind, AssetReference, ModelContext, PageCursor, kind_eq}
use powerfactory_mcp.Domain.Inventory.{ModelSummaryRequest}
use powerfactory_mcp.Domain.Inventory.Checks.{contains, new_kind_summary}
use powerfactory_mcp.Operations.Inventory.{fresh_tally, query_for, summarize_kinds}
use powerfactory_mcp.Operations.Inventory.Scan.{InventoryGateway}
use powerfactory_mcp.Operations.Inventory.Items.{
  Tally, admit_unique, count_item, summarize_item, validate_item_scope,
}
use powerfactory_mcp.Operations.Inventory.Traversal.{fold_items, scan-Pages}
use powerfactory_mcp.Operations.Inventory.Tallies.{entered, fold_items-Tallied}
use powerfactory_mcp.Operations.Inventory.Balance.{
  Served, kind_summary-Tallied, summaries, summary_of,
}

-- An item of the kind and of the project.
abbrev pub is_of : AssetKind → String → AssetReference → Bool
is_of kind key item =
    kind_eq item.asset_kind kind
    && item.project_key == key
    && item.locator.project_provenance.project_key == key

-- The identities seen after a list.
abbrev pub seen_after : List AssetReference → List String → List String
seen_after [] seen = seen
seen_after (item ∷ items) seen = seen_after items (item.product_identity ∷ seen)

-- Every item is of the kind and the project, and no identity is in `seen` or twice in the list.
abbrev pub Admits : AssetKind → String → List String → List AssetReference → Type 0
Admits kind key seen [] = Unit
Admits kind key seen (item ∷ items) =
    (is_of kind key item ≡ true)
    × (contains seen item.product_identity ≡ false)
    × Admits kind key (item.product_identity ∷ seen) items

module _ (r : ModelSummaryRequest) (kind : AssetKind) where
  summarize_item-admits :
      (x : AssetReference) (s : Tally)
      → is_of kind r.exact_project_key x ≡ true
      → contains s.seen x.product_identity ≡ false
      → summarize_item r kind x s
        ≡ ok (count_item r kind x (entered r kind x (x.product_identity ∷ s.seen) s))
  unfolding summarize_item admit_unique validate_item_scope
  summarize_item-admits x s scope new = ground arith

  counted-seen : (x : AssetReference) (s : Tally) → (count_item r kind x s).seen ≡ s.seen
  counted-seen x s = ground arith

  fold-summarize_item :
      (xs : List AssetReference) (s : Tally)
      → Admits kind r.exact_project_key s.seen xs
      → (t : Tally) × (fold_items (summarize_item r kind) xs s ≡ ok t)
        × (t.seen ≡ seen_after xs s.seen)
  unfolding fold_items
  fold-summarize_item [] s fit = (s, refl, refl)
  fold-summarize_item (x ∷ xs) s (scope, new, rest) =
      let s1 = entered r kind x (x.product_identity ∷ s.seen) s in
      let same = counted-seen x s1 in
      let (t, read, after) =
        fold-summarize_item xs (count_item r kind x s1)
          (subst (λ seen. Admits kind r.exact_project_key seen xs) (sym same) rest) in
      (
        t,
        rw (summarize_item-admits x s scope new) read,
        after ∙ ap (λ seen. seen_after xs seen) same,
      )

module _ (fuel : ℕ) (gateway : InventoryGateway) (r : ModelSummaryRequest) (context : ModelContext)
    (items : AssetKind → List AssetReference) (token : AssetKind → ℕ → PageCursor) where
  -- Nothing is refused: not an item, not their number, and not the summary of a kind.
  abbrev pub Accepted : List AssetKind → List String → ℕ → Type 0
  Accepted [] seen spent = Unit
  Accepted (kind ∷ kinds) seen spent =
      Admits kind r.exact_project_key seen (items kind)
      × (spent + length (items kind) ≤ r.inventory_limit)
      × (new_kind_summary (summary_of r kind (items kind)) ≡ ok (summary_of r kind (items kind)))
      × Accepted kinds (seen_after (items kind) seen) (spent + length (items kind))

  -- Where the gateway hands out the items of each kind in pages, the fuel is more than the items of
  -- a kind, every item is of its kind and of the project, no identity occurs twice over all the
  -- kinds, the items together fit the limit, and the summary of each kind is valid, the loop of
  -- `summarize` over the kinds returns exactly the summaries of the items of each kind.
  pub summarize_kinds-returns :
      (kinds : List AssetKind) (t : Tally)
      → Served fuel gateway r context items token kinds
      → Accepted kinds t.seen t.scanned
      → (last : Tally) × (summarize_kinds fuel gateway r context kinds t
          ≡ some (ok (summaries fuel gateway r context items token kinds, last)))
  unfolding summarize_kinds
  summarize_kinds-returns [] t served accepted = (t, refl)
  summarize_kinds-returns (kind ∷ kinds) t (pages, enough, served) (fit, room, valid, accepted) =
      let (t', read, seen) = fold-summarize_item r kind (items kind) (fresh_tally t) fit in
      let tallied = fold_items-Tallied r kind (items kind) (fresh_tally t) t' read in
      let within : leb (length (items kind)) (r.inventory_limit - t.scanned) ≡ true =
        ground (arith, room) in
      let scanned =
        scan-Pages (summarize_item r kind) fuel r.inventory_limit t.scanned gateway
          (query_for context kind r.exact_project_key r.page_size none) (items kind) (token kind)
          (fresh_tally t) pages enough (omega (arith, room)) in
      let (last, others) = summarize_kinds-returns kinds t' served (
        subst (λ x. Accepted kinds x t'.scanned) (sym seen)
          (subst (λ n. Accepted kinds (seen_after (items kind) t.seen) n) (sym tallied.scanned)
            accepted)) in
      (
        last,
        rw
            (
              pages.valid,
              scanned,
              within,
              read,
              kind_summary-Tallied r kind (items kind) t t' tallied,
              valid,
              others,
            )
            refl,
      )
