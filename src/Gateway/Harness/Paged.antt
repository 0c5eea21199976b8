-- ===== src/Gateway/Harness/Paged.antt =====
-- The harness hands out the assets that a query selects in pages, as the inventory service assumes.
use powerfactory_mcp.Prelude.{
  ℕ, zero, suc, ◌+◌, ◌-◌, ◌<◌, ◌≤◌, ◌⊎◌, inl, inr, ◌≡◌, refl, sym, ap, ◌∙◌, true, false, ◌==◌,
  eq_iff, eq_refl, leb, ltb, Bool-cases, Option, none, some, List, [], ◌∷◌, length, take, drop,
  length-take, length-take_full, length-drop, take_all, arith, if◌then◌else◌,
}
use powerfactory_mcp.Errors.{ok}
use powerfactory_mcp.Domain.Values.{revision_eq}
use powerfactory_mcp.Domain.Assets.{AssetReference, InventoryQuery, PageCursor}
use powerfactory_mcp.Domain.Assets.Checks.{
  identities, is_sorted, new_inventory_page, new_inventory_query, new_page_cursor,
  require_collection, require_bounded,
}
use powerfactory_mcp.Operations.Inventory.Paging.{
  cursor_at, next_at, page_at, query_at, Pages, nat_eq_refl, opt_eq_refl,
}
use powerfactory_mcp.Gateway.Harness.{
  CursorCodec, CursorPayload, Harness, cursor_behind, cursor_schema, cursor_ttl, decode_cursor,
  expected_last, fits, identity_at, inventory, inventory_gateway, last_identity, model_context_id,
  offset_of, page_from, query_binding, selected,
}
use powerfactory_mcp.Gateway.Harness.Order.{sorted-drop, sorted-select, sorted-take}

identity_at-drop :
    (k i : ℕ) (items : List AssetReference)
    → identity_at (drop k items) i ≡ identity_at items (k + i)
unfolding identity_at
identity_at-drop zero i items = ap (identity_at items) (omega arith)
identity_at-drop (suc k) i [] = refl
identity_at-drop (suc k) i (a ∷ items) =
    identity_at-drop k i items
    ∙ ap (identity_at (a ∷ items)) (let e : suc (k + i) ≡ suc k + i = omega arith in e)

last_identity-take :
    (n : ℕ) (items : List AssetReference)
    → suc n ≤ length items
    → last_identity (take (suc n) items) ≡ identity_at items n
unfolding last_identity identity_at
last_identity-take n [] h = absurd (omega arith)
last_identity-take zero (a ∷ items) h = refl
last_identity-take (suc n) (a ∷ []) h = absurd (omega arith)
last_identity-take (suc n) (a ∷ b ∷ items) h = last_identity-take n (b ∷ items) (omega arith)

-- A full page ends with the item before the next offset.
last_identity_page :
    (size k : ℕ) (items : List AssetReference)
    → 1 ≤ size
    → k + size ≤ length items
    → last_identity (take size (drop k items)) ≡ identity_at items (k + size - 1)
last_identity_page zero k items h fits = absurd (omega arith)
last_identity_page (suc n) k items h fits =
    last_identity-take n (drop k items) (omega (arith, length-drop k items))
    ∙ identity_at-drop k n items
    ∙ ap (identity_at items) (let e : k + n ≡ k + suc n - 1 = omega arith in e)

expected_last_pos :
    (items : List AssetReference) (k : ℕ)
    → 0 < k
    → expected_last items k ≡ identity_at items (k - 1)
expected_last_pos items zero h = absurd (omega arith)
expected_last_pos items (suc k) h =
    ap (identity_at items) (let e : k ≡ suc k - 1 = omega arith in e)

offset_in : Option CursorPayload → ℕ
offset_in none = 0
offset_in (some p) = p.offset

module _ (codec : CursorCodec) (h : Harness) (q : InventoryQuery) where
  abbrev items : List AssetReference
  items = selected h q

  -- What the cursor for an offset says.
  abbrev pub payload_at : ℕ → CursorPayload
  payload_at k = record {
    schema = cursor_schema;
    query_digest = query_binding codec h q;
    configuration_key = q.configuration_key;
    extraction_revision = q.extraction_revision;
    sort = q.sort_specification;
    last_product_uuid = expected_last (selected h q) k;
    offset = k;
    requested_page_size = q.page_size;
    effective_page_size = q.page_size;
    issued_at = h.now;
    expires_at = h.now + cursor_ttl;
  }

  abbrev pub token_at : ℕ → PageCursor
  token_at k = codec.seal (payload_at k)

  -- A query of the harness's own context, assets in the order of their identities, and cursors
  -- that open to what was sealed.
  pub record Serves : Type 0 where
    pub valid : new_inventory_query q ≡ ok q
    pub configuration : q.configuration_key ≡ h.configuration
    pub revision : q.extraction_revision ≡ record { scope_id = model_context_id; counter = 1 }
    pub ordered : is_sorted (identities h.assets) ≡ true
    pub opens :
        (k : ℕ)
        → 0 < k
        → k < length (selected h q)
        → codec.opened (token_at k) ≡ some (payload_at k)
    pub text :
        (k : ℕ) → 0 < k → k < length (selected h q) → new_page_cursor (token_at k) ≡ ok (token_at k)

  query_bounds : new_inventory_query q ≡ ok q → (1 ≤ q.page_size) × (q.page_size ≤ 100)
  unfolding new_inventory_query require_bounded
  query_bounds valid = ground arith

  same_selection : (k : ℕ) → selected h (query_at token_at q k) ≡ items
  unfolding selected
  same_selection k = refl

module _ (codec : CursorCodec) (h : Harness) (q : InventoryQuery) (fit : Serves codec h q) where
  offset_at :
      (k : ℕ)
      → (k ≡ 0) ⊎ (k < length (selected h q))
      → offset_of codec h
          (cursor_at (token_at codec h q) k)
          (query_at (token_at codec h q) q k)
          (selected h q)
        ≡ ok k
  unfolding offset_of decode_cursor
  offset_at zero inside = refl
  offset_at (suc k) (inl e) = absurd (omega arith)
  offset_at (suc k) (inr inside) =
      let alive : ltb (h.now + 300) h.now ≡ false = ground arith in
      let fresh : leb (h.now + 300) h.now ≡ false = ground arith in
      let within : leb (suc k) (length (selected h q)) ≡ true = ground arith in
      rw (fit.opens (suc k) (omega arith) inside, alive, fresh, decode_cursor)
        (simp (eq_refl, nat_eq_refl, opt_eq_refl, within))

  behind :
      (k : ℕ)
      → (k ≡ 0) ⊎ (k < length (selected h q))
      → (if ltb (k + length (take q.page_size (drop k (selected h q)))) (length (selected h q))
          then some (
              cursor_behind codec h
                (query_at (token_at codec h q) q k)
                (take q.page_size (drop k (selected h q)))
                (k + length (take q.page_size (drop k (selected h q)))))
          else none)
        ≡ next_at (token_at codec h q) (k + q.page_size) (length (selected h q))
  behind k inside =
      let (size, most) = query_bounds codec h q fit.valid in
      elim (Bool-cases (ltb (k + q.page_size) (length (selected h q)))) [
        | inl more ↦
            let whole : length (take q.page_size (drop k (selected h q))) ≡ q.page_size =
              length-take_full q.page_size (drop k (selected h q))
                (ground (arith, length-drop k (selected h q))) in
            let last : last_identity (take q.page_size (drop k (selected h q)))
                ≡ expected_last (selected h q) (k + q.page_size) =
              last_identity_page q.page_size k (selected h q) size (ground arith)
              ∙ sym (expected_last_pos (selected h q) (k + q.page_size) (omega arith)) in
            rw (whole, more)
              (λ i. some (
                codec.seal (record (payload_at codec h q (k + q.page_size)) {
                  last_product_uuid = last i;
                  effective_page_size = whole i;
                })))
        | inr last ↦
            let rest : length (take q.page_size (drop k (selected h q)))
                ≡ length (selected h q) - k =
              ap length (
                take_all q.page_size (drop k (selected h q))
                  (ground (arith, length-drop k (selected h q))))
              ∙ length-drop k (selected h q) in
            let ended : ltb (k + (length (selected h q) - k)) (length (selected h q)) ≡ false =
              ground arith in
            rw (rest, last, ended)
      ]

  accepted :
      (k : ℕ)
      → new_inventory_page (page_at (token_at codec h q) q (selected h q) k)
        ≡ ok (page_at (token_at codec h q) q (selected h q) k)
  unfolding new_inventory_page require_collection selected
  accepted k =
      let (size, most) = query_bounds codec h q fit.valid in
      let short : length (take q.page_size (drop k (selected h q))) ≤ q.page_size =
        length-take q.page_size (drop k (selected h q)) in
      let few : leb (length (take q.page_size (drop k (selected h q)))) 10000 ≡ true =
        ground arith in
      let fitting : leb (length (take q.page_size (drop k (selected h q)))) q.page_size ≡ true =
        ground arith in
      rw (
        few,
        sorted-take q.page_size (drop k (selected h q))
            (sorted-drop k (selected h q) (sorted-select (fits q) h.assets fit.ordered)),
        fitting,
      )

  page_from-at :
      (k : ℕ)
      → (k ≡ 0) ⊎ (k < length (selected h q))
      → page_from codec h (query_at (token_at codec h q) q k) (selected h q) k
        ≡ ok (page_at (token_at codec h q) q (selected h q) k)
  unfolding page_from
  page_from-at k inside = rw (behind k inside, page_from) (accepted k)

  answer :
      (k : ℕ)
      → (k ≡ 0) ⊎ (k < length (selected h q))
      → inventory codec h (query_at (token_at codec h q) q k)
        ≡ ok (page_at (token_at codec h q) q (selected h q) k)
  unfolding inventory
  answer k inside =
      let key : (q.configuration_key == h.configuration) ≡ true =
        (eq_iff q.configuration_key h.configuration).1 fit.configuration in
      let extraction : revision_eq q.extraction_revision
            (record { scope_id = model_context_id; counter = 1 })
          ≡ true =
        rw fit.revision in
      rw (key, extraction, same_selection codec h q k, offset_at k inside) (page_from-at k inside)

  apart :
      (j k : ℕ)
      → 0 < j
      → j < k
      → k < length (selected h q)
      → (token_at codec h q j == token_at codec h q k) ≡ false
  unfolding offset_in
  apart j k first less below = elim (Bool-cases (token_at codec h q j == token_at codec h q k)) [
    | inl same ↦
        let tokens : token_at codec h q j ≡ token_at codec h q k =
          (eq_iff (token_at codec h q j) (token_at codec h q k)).0 same in
        let payloads : some (payload_at codec h q j) ≡ some (payload_at codec h q k) =
          sym (fit.opens j first (omega arith))
          ∙ ap codec.opened tokens
          ∙ fit.opens k (omega arith) below in
        let e : j ≡ k = ap offset_in payloads in absurd (omega arith)
    | inr different ↦ different
  ]

  -- The harness is an inventory as the service wants one: for a query without a cursor that it
  -- serves, the page behind the cursor of each offset is the next items of the selection with the
  -- cursor of the offset after them, no cursor comes after the last item, and the cursors differ.
  pub inventory_gateway-Pages :
      Pages (inventory_gateway codec h) q (selected h q) (token_at codec h q)
  unfolding inventory_gateway inventory
  inventory_gateway-Pages = record {
    valid = fit.valid;
    size = (query_bounds codec h q fit.valid).0;
    answers = answer;
    text = fit.text;
    distinct = apart;
  }
