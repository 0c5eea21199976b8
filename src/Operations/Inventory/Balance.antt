-- ===== src/Operations/Inventory/Balance.antt =====
-- The counts of a summary, over the items of each kind.
use powerfactory_mcp.Prelude.{
  ℕ, ◌+◌, ◌-◌, ◌<◌, ◌≡◌, refl, ap, ◌∙◌, ltb, leb, Bool-cases, inl, inr, none, some, List, [], ◌∷◌,
  length, take, arith,
}
use powerfactory_mcp.Errors.{ok, err, inventory_service_error, InventoryServiceErrorCode, >>=-eq-ok}
use powerfactory_mcp.Table.{count}
use powerfactory_mcp.Domain.Assets.{AssetKind, AssetReference, ModelContext, PageCursor}
use powerfactory_mcp.Domain.Inventory.{AssetKindSummary, ModelSummaryRequest}
use powerfactory_mcp.Domain.Inventory.Checks.{new_kind_summary, new_kind_summary-eq-ok, total_of}
use powerfactory_mcp.Operations.Inventory.{fresh_tally, kind_summary, query_for, summarize_kinds}
use powerfactory_mcp.Operations.Run.{Ends, Ends-bind, Ends-result}
use powerfactory_mcp.Operations.Inventory.Scan.{InventoryGateway, scan}
use powerfactory_mcp.Operations.Inventory.Items.{Tally, is_unresolved, summarize_item}
use powerfactory_mcp.Operations.Inventory.Paging.{Pages}
use powerfactory_mcp.Operations.Inventory.Tallies.{
  warned, is_foreign, is_supported, Tallied, fold_items-Tallied,
}
use powerfactory_mcp.Operations.Inventory.Traversal.{fold_items, limited, scan-Pages}

-- What the summary of a kind is to say of its items.
abbrev pub summary_of : ModelSummaryRequest → AssetKind → List AssetReference → AssetKindSummary
summary_of r kind xs = record {
  asset_kind = kind;
  total_count = length xs;
  supported_count = count (is_supported kind) xs;
  unsupported_count = count (is_foreign kind) xs;
  unresolved_count = count is_unresolved xs;
  sample_references = take r.sample_limit_per_kind xs;
}

pub kind_summary-Tallied :
    (r : ModelSummaryRequest) (kind : AssetKind) (xs : List AssetReference) (t t' : Tally)
    → Tallied r kind xs (fresh_tally t) t'
    → kind_summary kind t' ≡ summary_of r kind xs
kind_summary-Tallied r kind xs t t' counted =
    let total : t'.total ≡ length xs = omega (arith, counted.total) in
    let supported : t'.supported ≡ count (is_supported kind) xs =
      omega (arith, counted.supported) in
    let foreign : t'.unsupported ≡ count (is_foreign kind) xs =
      omega (arith, counted.unsupported) in
    let unresolved : t'.unresolved ≡ count is_unresolved xs = omega (arith, counted.unresolved) in
    let whole : r.sample_limit_per_kind - 0 ≡ r.sample_limit_per_kind = omega arith in
    let samples : t'.samples ≡ take r.sample_limit_per_kind xs =
      counted.samples ∙ ap (λ n. take n xs) whole in
    rw (total, supported, foreign, unresolved, samples) refl

module _ (fuel : ℕ) (gateway : InventoryGateway) (r : ModelSummaryRequest) (context : ModelContext)
    (items : AssetKind → List AssetReference) (token : AssetKind → ℕ → PageCursor) where
  -- The gateway hands out the items of the kinds in pages, and the fuel is enough for them.
  abbrev pub Served : List AssetKind → Type 0
  Served [] = Unit
  Served (kind ∷ kinds) =
      Pages gateway (query_for context kind r.exact_project_key r.page_size none) (items kind)
        (token kind)
      × (length (items kind) < fuel)
      × Served kinds

  abbrev pub summaries : List AssetKind → List AssetKindSummary
  summaries [] = []
  summaries (kind ∷ kinds) = summary_of r kind (items kind) ∷ summaries kinds

  -- What the loop over the kinds has counted, from the tally `t` on.
  abbrev pub Counted : Tally → List AssetKind → List AssetKindSummary × Tally → Type 0
  Counted t kinds (categories, last) =
      (categories ≡ summaries kinds)
      × (last.scanned ≡ t.scanned + total_of (λ c. c.total_count) (summaries kinds))
      × (warned last.warnings.unresolved
          ≡ warned t.warnings.unresolved + total_of (λ c. c.unresolved_count) (summaries kinds))
      × (warned last.warnings.unsupported
          ≡ warned t.warnings.unsupported + total_of (λ c. c.unsupported_count) (summaries kinds))

  -- The items of one kind are all counted, or the traversal raises.
  limited-Tallied :
      (kind : AssetKind) (limit : ℕ) (xs : List AssetReference) (s t : Tally)
      → limited (summarize_item r kind) limit xs s ≡ ok t
      → Tallied r kind xs s t
  limited-Tallied kind limit xs s t h = elim (Bool-cases (leb (length xs) limit)) [
    | inl fits ↦ fold_items-Tallied r kind xs s t (rw fits at h)
    | inr over ↦
        let (t', some_fit, raised) =
          >>=-eq-ok (fold_items (summarize_item r kind) (take limit xs) s)
            (λ u. err (inventory_service_error InventoryServiceErrorCode.bound_exceeded))
            (rw over at h) in
        absurd (cc (raised))
  ]

  scan-Tallied :
      (kind : AssetKind) (t : Tally)
      → Pages gateway
          (query_for context kind r.exact_project_key r.page_size none)
          (items kind)
          (token kind)
      → length (items kind) < fuel
      → Ends (Tallied r kind (items kind) (fresh_tally t)) (
          scan
            (summarize_item r kind)
            fuel
            gateway
            (query_for context kind r.exact_project_key r.page_size none)
            r.inventory_limit
            t.scanned
            (fresh_tally t))
  scan-Tallied kind t pages enough = elim (Bool-cases (ltb r.inventory_limit t.scanned)) [
    | inl over ↦ inl (
      inventory_service_error InventoryServiceErrorCode.bound_exceeded,
      (unfold scan in rw (over, scan) refl),
    )
    | inr within ↦
        rw
          (scan-Pages (summarize_item r kind) fuel r.inventory_limit t.scanned gateway
            (query_for context kind r.exact_project_key r.page_size none) (items kind) (token kind)
            (fresh_tally t) pages enough (ground (arith, within)))
          (Ends-result _ _
            (limited-Tallied kind (r.inventory_limit - t.scanned) (items kind) (fresh_tally t)))
  ]

  -- The loop of `summarize` over the kinds ends where the gateway hands out the items of each kind in
  -- pages and the fuel is more than the items of a kind: it raises, or it comes to one summary for
  -- each kind, with the number of its items, of the supported, foreign and unresolved ones, and with
  -- the first of them up to the limit as samples; every item of the kinds is counted as scanned once,
  -- and each of the two warnings has been noted once for each item that it warns of.
  pub summarize_kinds-Counted :
      (kinds : List AssetKind) (t : Tally)
      → Served kinds
      → Ends (Counted t kinds) (summarize_kinds fuel gateway r context kinds t)
  unfolding summarize_kinds total_of
  summarize_kinds-Counted [] t served =
      inr (([], t), refl, (refl, omega arith, omega arith, omega arith))
  summarize_kinds-Counted (kind ∷ kinds) t (pages, enough, served) = rw pages.valid (
      Ends-bind
        (scan (summarize_item r kind) fuel gateway
          (query_for context kind r.exact_project_key r.page_size none) r.inventory_limit t.scanned
          (fresh_tally t))
        _ (scan-Tallied kind t pages enough)
        (λ t' tallied.
          Ends-bind (some (new_kind_summary (kind_summary kind t'))) _
            (Ends-result _ (λ s. s ≡ summary_of r kind (items kind))
              (λ s made.
                new_kind_summary-eq-ok (kind_summary kind t') made
                ∙ kind_summary-Tallied r kind (items kind) t t' tallied))
            (λ s same.
              Ends-bind (summarize_kinds fuel gateway r context kinds t') _
                (summarize_kinds-Counted kinds t' served)
                (λ rest (rows, scanned, unresolved, foreign). inr (
                  (s ∷ rest.0, rest.1),
                  refl,
                  (
                    cc (same, rows),
                    omega (arith, scanned, tallied.scanned),
                    omega (arith, unresolved, tallied.unresolved_warned),
                    omega (arith, foreign, tallied.foreign_warned),
                  ),
                )))))
