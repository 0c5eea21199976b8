-- ===== src/Operations/Inventory/Ending.antt =====
-- When a traversal ends, for any gateway: the limit counts items, so it bounds the pages only if
-- each page that has a next one holds an item.
use powerfactory_mcp.Prelude.{
  ℕ, zero, suc, ◌+◌, ◌-◌, ◌<◌, ◌≤◌, ◌≢◌, ◌≡◌, refl, ap, ◌∙◌, Bool, true, false, ◌||◌, ◌==◌, ltb,
  Bool-cases, inl, inr, String, Option, none, some, List, [], ◌∷◌, arith,
}
use powerfactory_mcp.Errors.{
  Error, Result, ok, err, refuse, guard, inventory_service_error, InventoryServiceErrorCode, ◌>>=◌,
  ◌>>◌, >>=-eq-ok,
}
use powerfactory_mcp.Table.{any}
use powerfactory_mcp.Domain.Assets.{
  AssetReference, InventoryQuery, InventoryPage, PageCursor, query_eq,
}
use powerfactory_mcp.Domain.Values.{revision_eq}
use powerfactory_mcp.Domain.Assets.Checks.{new_page_cursor, new_inventory_query}
use powerfactory_mcp.Domain.Inventory.Checks.{contains}
use powerfactory_mcp.Operations.Inventory.Scan.{
  InventoryGateway, read_page, Turn, is_cursor, yield_items, follow, turn, scan_pages, scan,
}
use powerfactory_mcp.Operations.Inventory.Traversal.{resume, scan_pages-suc, eq_false_sym}
use powerfactory_mcp.Operations.Inventory.Paging.{
  cursor_at, query_at, read_page_lem, new_inventory_query-cursor,
}

-- A page that is not the last one holds an item.
abbrev pub Fills : InventoryGateway → Type 0
Fills gateway =
    (q : InventoryQuery) (page : InventoryPage) (token : PageCursor)
    → gateway.inventory q ≡ ok page
    → page.next_cursor ≡ some token
    → page.items ≢ []

three_guards-eq-ok :
    {A : Type 0} (a b c : Bool) (d e f : Error) (p : A) {page : A}
    → (guard a d >> (guard b e >> (guard c f >> ok p))) ≡ ok page
    → p ≡ page
three_guards-eq-ok true true true d e f p h = cc
three_guards-eq-ok true true false d e f p h = cc
three_guards-eq-ok true false c d e f p h = cc
three_guards-eq-ok false b c d e f p h = cc

read_page-eq-ok :
    (gateway : InventoryGateway) (q : InventoryQuery) (page : InventoryPage)
    → read_page gateway q ≡ ok page
    → gateway.inventory q ≡ ok page
unfolding read_page
read_page-eq-ok gateway q page h =
    let (p, answered, h1) = >>=-eq-ok (gateway.inventory q) _ h in
    answered
    ∙ ap ok (
        three_guards-eq-ok (p.query.configuration_key == q.configuration_key)
          (revision_eq p.query.extraction_revision q.extraction_revision) (query_eq p.query q)
          (inventory_service_error InventoryServiceErrorCode.other_configuration)
          (inventory_service_error InventoryServiceErrorCode.revision_mismatch)
          (inventory_service_error InventoryServiceErrorCode.invalid_gateway_response) p h1)

module _ {S : Type 0} (consume : AssetReference → S → Result S) (limit : ℕ) where
  yield_items-counts :
      (xs : List AssetReference) (n : ℕ) (s : S) {r : ℕ × S}
      → yield_items consume limit xs n s ≡ ok r
      → n ≤ limit
      → (n ≤ r.0) × (r.0 ≤ limit) × (xs ≢ [] → n < r.0)
  unfolding yield_items
  yield_items-counts [] n s {r} h within =
      let e : n ≡ r.0 = cc in (omega arith, omega arith, (λ k. absurd (k refl)))
  yield_items-counts (x ∷ xs) n s {r} h within = elim (Bool-cases (ltb limit (suc n))) [
    | inl over ↦ cc (rw over at h)
    | inr fits ↦
        step (consume x s) (λ s' e. yield_items-counts xs (suc n) s' {r = r} e (ground arith))
          (rw fits at h)
  ]
    where
      step :
          (m : Result S)
          → ((s' : S)
              → yield_items consume limit xs (suc n) s' ≡ ok r
              → (suc n ≤ r.0) × (r.0 ≤ limit) × (xs ≢ [] → suc n < r.0))
          → (m >>= λ s'. yield_items consume limit xs (suc n) s') ≡ ok r
          → (n ≤ r.0) × (r.0 ≤ limit) × (x ∷ xs ≢ [] → n < r.0)
      step (err e) ih k = cc
      step (ok s') ih k = let (a, b, c) = ih s' k in (omega arith, b, (λ ne. omega arith))

  follow-token :
      (next : Option PageCursor) (q : InventoryQuery) (seen : List String) (m : ℕ) (t : S)
      {q' : InventoryQuery} {seen' : List String} {n' : ℕ} {s' : S}
      → follow consume limit next q seen m t ≡ ok (Turn.next_page q' seen' n' s')
      → (token : PageCursor) × (next ≡ some token) × (m ≡ n')
  unfolding follow
  follow-token none q seen m t h = cc
  follow-token (some token) q seen m t {q'} {seen'} {n'} {s'} h =
      let (u, passed, h1) =
        >>=-eq-ok
          (refuse (contains seen token || is_cursor q.cursor token)
            (inventory_service_error InventoryServiceErrorCode.cursor_loop))
          _ h in
      let (c, made, h2) = >>=-eq-ok (new_page_cursor token) _ h1 in
      let (q2, valid, h3) = >>=-eq-ok (new_inventory_query (record q { cursor = some c })) _ h2 in
      (token, refl, cc h3)

  -- What a turn that goes on has read.
  turn-counts :
      (gateway : InventoryGateway) (q : InventoryQuery) (seen : List String) (n : ℕ) (s : S)
      {q' : InventoryQuery} {seen' : List String} {n' : ℕ} {s' : S}
      → Fills gateway
      → n ≤ limit
      → turn consume limit gateway q seen n s ≡ ok (Turn.next_page q' seen' n' s')
      → (n < n') × (n' ≤ limit)
  unfolding turn
  turn-counts gateway q seen n s {q'} {seen'} {n'} {s'} fills within h =
      let (page, read, h1) = >>=-eq-ok (read_page gateway q) _ h in
      let (v, eaten, h2) = >>=-eq-ok (yield_items consume limit page.items n s) _ h1 in
      let (a, b, c) = yield_items-counts page.items n s {r = v} eaten within in
      let (token, another, counted) =
        follow-token page.next_cursor q seen v.0 v.1 {q' = q'} {seen' = seen'} {n' = n'} {s' = s'}
          h2 in
      let e : v.0 ≡ n' = counted in
      let more : n < v.0 = c (fills q page token (read_page-eq-ok gateway q page read) another) in
      (omega arith, omega arith)

  -- The loop ends: each turn that goes on reads an item, and the limit bounds them.
  scan_pages-ends :
      (fuel : ℕ) (gateway : InventoryGateway) (q : InventoryQuery) (seen : List String) (n : ℕ)
      (s : S)
      → Fills gateway
      → n ≤ limit
      → limit - n < fuel
      → scan_pages consume limit fuel gateway q seen n s ≢ none
  unfolding resume
  scan_pages-ends zero gateway q seen n s fills within enough = absurd (omega arith)
  scan_pages-ends (suc fuel) gateway q seen n s fills within enough =
      rw (scan_pages-suc consume limit fuel gateway q seen n s) (
        step (turn consume limit gateway q seen n s) refl (λ q' seen' n' s' more within'.
          scan_pages-ends fuel gateway q' seen' n' s' fills within' (omega arith)))
    where
      step :
          (r : Result (Turn S))
          → turn consume limit gateway q seen n s ≡ r
          → ((q' : InventoryQuery) (seen' : List String) (n' : ℕ) (s' : S)
              → n < n'
              → n' ≤ limit
              → scan_pages consume limit fuel gateway q' seen' n' s' ≢ none)
          → resume consume limit fuel gateway r ≢ none
      step (err e) h ih = λ k. cc
      step (ok (Turn.last_page s')) h ih = λ k. cc
      step (ok (Turn.next_page q' seen' n' s')) h ih =
          let (more, within') =
            turn-counts gateway q seen n s {q' = q'} {seen' = seen'} {n' = n'} {s' = s'} fills
              within h in
          ih q' seen' n' s' more within'

-- A traversal of any gateway whose pages hold an item unless they are the last one ends: with one
-- unit of fuel more than the items that the limit admits, it returns or raises.
pub scan-ends :
    {S : Type 0} (consume : AssetReference → S → Result S) (fuel limit spent : ℕ)
    (gateway : InventoryGateway) (q : InventoryQuery) (s : S)
    → Fills gateway
    → limit - spent < fuel
    → scan consume fuel gateway q limit spent s ≢ none
unfolding scan
scan-ends consume fuel limit spent gateway q s fills enough = elim (Bool-cases (ltb limit spent)) [
  | inl over ↦ rw (over, scan) (λ k. cc)
  | inr within ↦
      rw (within, scan)
        (scan_pages-ends consume (limit - spent) fuel gateway q [] 0 s fills (omega arith)
          (omega arith))
]

-- A gateway that answers each query with no item and the cursor that its `next` gives.
abbrev pub endless : (Option PageCursor → PageCursor) → InventoryGateway → InventoryGateway
endless next gateway = record gateway {
  inventory = λ q. ok (record {
    query = q;
    items = [];
    next_cursor = some (next q.cursor);
    deterministic_order = true;
  });
}

module _ {S : Type 0} (consume : AssetReference → S → Result S) (limit : ℕ)
    (gateway : InventoryGateway) (q : InventoryQuery) (token : ℕ → PageCursor)
    (next : Option PageCursor → PageCursor) (total : ℕ) (valid : new_inventory_query q ≡ ok q)
    (step : (k : ℕ) → k < total → next (cursor_at token k) ≡ token (suc k))
    (text : (k : ℕ) → k < total → new_page_cursor (token (suc k)) ≡ ok (token (suc k)))
    (distinct : (j k : ℕ) → j < k → k ≤ total → (token j == token k) ≡ false) where
  fresh_cursor : (k : ℕ) → k < total → is_cursor (cursor_at token k) (token (suc k)) ≡ false
  fresh_cursor zero h = refl
  fresh_cursor (suc k) h =
      eq_false_sym (token (suc k)) (token (suc (suc k)))
        (distinct (suc k) (suc (suc k)) (omega arith) h)

  endless-turn :
      (k n : ℕ) (seen : List String) (s : S)
      → k < total
      → contains seen (token (suc k)) ≡ false
      → turn consume limit (endless next gateway) (query_at token q k) seen n s
        ≡ ok (Turn.next_page (query_at token q (suc k)) (token (suc k) ∷ seen) n s)
  unfolding turn yield_items follow
  endless-turn k n seen s h unseen = rw (
    read_page_lem (endless next gateway)
        (record {
          query = query_at token q k;
          items = [];
          next_cursor = some (next (cursor_at token k));
          deterministic_order = true;
        })
        refl,
    step k h,
    unseen,
    fresh_cursor k h,
    text k h,
    new_inventory_query-cursor q (some (token (suc k))) valid,
  )

  endless-goes_on :
      (fuel k n : ℕ) (seen : List String) (s : S)
      → k + fuel ≤ total
      → ((j : ℕ) → k < j → j ≤ total → contains seen (token j) ≡ false)
      → scan_pages consume limit fuel (endless next gateway) (query_at token q k) seen n s ≡ none
  unfolding scan_pages resume any
  endless-goes_on zero k n seen s h unseen = refl
  endless-goes_on (suc fuel) k n seen s h unseen =
      scan_pages-suc consume limit fuel (endless next gateway) (query_at token q k) seen n s
      ∙ rw (endless-turn k n seen s (omega arith) (unseen (suc k) (omega arith) (omega arith))) (
          endless-goes_on fuel (suc k) n (token (suc k) ∷ seen) s (omega arith)
            (λ j later within. rw (distinct (suc k) j later within, unseen j (omega arith) within)))

-- The limit does not bound the pages: a gateway whose pages are empty keeps a traversal going for
-- as many turns as it has distinct cursors, under any limit, though not one item is read.
pub scan-endless :
    {S : Type 0} (consume : AssetReference → S → Result S) (fuel limit spent : ℕ)
    (gateway : InventoryGateway) (q : InventoryQuery) (token : ℕ → PageCursor)
    (next : Option PageCursor → PageCursor) (s : S)
    → new_inventory_query q ≡ ok q
    → ((k : ℕ) → k < fuel → next (cursor_at token k) ≡ token (suc k))
    → ((k : ℕ) → k < fuel → new_page_cursor (token (suc k)) ≡ ok (token (suc k)))
    → ((j k : ℕ) → j < k → k ≤ fuel → (token j == token k) ≡ false)
    → spent ≤ limit
    → scan consume fuel (endless next gateway) (query_at token q 0) limit spent s ≡ none
unfolding scan any
scan-endless consume fuel limit spent gateway q token next s valid step text distinct within =
    let inside : ltb limit spent ≡ false = ground arith in
    rw (inside, scan)
      (endless-goes_on consume (limit - spent) gateway q token next fuel valid step text distinct
        fuel 0 0 [] s (omega arith) (λ j later below. refl))
