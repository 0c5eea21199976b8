-- ===== src/Operations/Inventory/Traversal.antt =====
-- A traversal of a gateway that pages reads the items, whatever the page size is.
use powerfactory_mcp.Prelude.{
  ℕ, zero, suc, ◌+◌, ◌-◌, ◌<◌, ◌≤◌, ◌⊎◌, inl, inr, ◌≡◌, refl, sym, ap, ◌∙◌, true, false, ◌==◌, ltb,
  leb, Bool-cases, String, some, List, [], ◌∷◌, ◌++◌, length, take, drop, take-drop, drop-drop,
  length-drop, take_all, arith, eq_iff, if◌then◌else◌,
}
use powerfactory_mcp.Errors.{
  Result, ok, err, inventory_service_error, InventoryServiceErrorCode, ◌>>=◌,
}
use powerfactory_mcp.Table.{any}
use powerfactory_mcp.Domain.Assets.{AssetReference, InventoryQuery, PageCursor}
use powerfactory_mcp.Domain.Inventory.Checks.{contains}
use powerfactory_mcp.Operations.Run.{Run}
use powerfactory_mcp.Operations.Inventory.Scan.{
  InventoryGateway, Turn, is_cursor, yield_items, follow, turn, scan_pages, scan,
}
use powerfactory_mcp.Operations.Inventory.Paging.{
  cursor_at, query_at, next_at, page_at, Pages, read_page_lem, new_inventory_query-cursor,
}

-- The loop that reads the generator, over a list: the reference for the traversal of the pages.
unfoldable pub fold_items :
    {S : Type 0} → (AssetReference → S → Result S) → List AssetReference → S → Result S
fold_items consume [] s = ok s
fold_items consume (item ∷ items) s = consume item s >>= λ s'. fold_items consume items s'

abbrev pub done : {S : Type 0} → Result (ℕ × S) → Result S
done (err e) = err e
done (ok r) = ok r.1

-- All the items within the limit; beyond it those that fit, and then the refusal.
abbrev pub limited :
    {S : Type 0} → (AssetReference → S → Result S) → ℕ → List AssetReference → S → Result S
limited consume limit items s =
    if leb (length items) limit
    then fold_items consume items s
    else fold_items consume (take limit items) s >>= λ s'.
        err (inventory_service_error InventoryServiceErrorCode.bound_exceeded)

-- What the continuation of a page does not tell apart.
after : {S : Type 0} → Result (ℕ × S) → (ℕ × S → Result S) → Result S
after (err e) f = err e
after (ok r) f = f r

module _ {S : Type 0} (consume : AssetReference → S → Result S) (limit : ℕ) where
  yield_items-append :
      (xs ys : List AssetReference) (n : ℕ) (s : S)
      → yield_items consume limit (xs ++ ys) n s
        ≡ (yield_items consume limit xs n s >>= λ r. yield_items consume limit ys r.0 r.1)
  unfolding yield_items
  yield_items-append [] ys n s = refl
  yield_items-append (x ∷ xs) ys n s = elim (Bool-cases (ltb limit (suc n))) [
    | inl over ↦ rw over
    | inr within ↦ rw within (step (consume x s) (yield_items-append xs ys (suc n)))
  ]
    where
      step :
          (r : Result S)
          → ((s' : S)
              → yield_items consume limit (xs ++ ys) (suc n) s' ≡ (
                  yield_items consume limit xs (suc n) s' >>= λ r'.
                  yield_items consume limit ys r'.0 r'.1))
          → (r >>= λ s'. yield_items consume limit (xs ++ ys) (suc n) s') ≡ (
              (r >>= λ s'. yield_items consume limit xs (suc n) s') >>= λ r'.
              yield_items consume limit ys r'.0 r'.1)
      step (err e) ih = refl
      step (ok s') ih = ih s'

  -- The traversal without its counter, as long as the items fit.
  yield_items-fits :
      (xs : List AssetReference) (n : ℕ) (s : S)
      → n + length xs ≤ limit
      → done (yield_items consume limit xs n s) ≡ fold_items consume xs s
  unfolding yield_items fold_items
  yield_items-fits [] n s h = refl
  yield_items-fits (x ∷ xs) n s h =
      let within : ltb limit (suc n) ≡ false = ground arith in
      rw within (step (consume x s) (λ s'. yield_items-fits xs (suc n) s' (omega arith)))
    where
      step :
          (r : Result S)
          → ((s' : S) → done (yield_items consume limit xs (suc n) s') ≡ fold_items consume xs s')
          → done (r >>= λ s'. yield_items consume limit xs (suc n) s')
            ≡ (r >>= λ s'. fold_items consume xs s')
      step (err e) ih = refl
      step (ok s') ih = ih s'

  abbrev over_limit : Result S
  over_limit = err (inventory_service_error InventoryServiceErrorCode.bound_exceeded)

  -- Beyond the limit, the items that fit are read before the refusal.
  yield_items_over :
      (xs : List AssetReference) (room n : ℕ) (s : S)
      → n + room ≡ limit
      → room < length xs
      → done (yield_items consume limit xs n s)
        ≡ (fold_items consume (take room xs) s >>= λ s'. over_limit)
  unfolding yield_items fold_items
  yield_items_over [] room n s e h = absurd (omega arith)
  yield_items_over (x ∷ xs) zero n s e h =
      let past : ltb limit (suc n) ≡ true = ground arith in rw past
  yield_items_over (x ∷ xs) (suc room) n s e h =
      let within : ltb limit (suc n) ≡ false = ground arith in
      rw within
        (step (consume x s) (λ s'. yield_items_over xs room (suc n) s' (omega arith) (omega arith)))
    where
      step :
          (r : Result S)
          → ((s' : S)
              → done (yield_items consume limit xs (suc n) s')
                ≡ (fold_items consume (take room xs) s' >>= λ t. over_limit))
          → done (r >>= λ s'. yield_items consume limit xs (suc n) s')
            ≡ ((r >>= λ s'. fold_items consume (take room xs) s') >>= λ t. over_limit)
      step (err e') ih = refl
      step (ok s') ih = ih s'

  -- One list, counted from nothing, is read within the limit.
  yield_items-limited :
      (xs : List AssetReference) (s : S)
      → done (yield_items consume limit xs 0 s) ≡ limited consume limit xs s
  yield_items-limited xs s = elim (Bool-cases (leb (length xs) limit)) [
    | inl fits ↦ rw fits (yield_items-fits xs 0 s (ground arith))
    | inr over ↦ rw over (yield_items_over xs limit 0 s (omega arith) (ground arith))
  ]

  -- What the loop does with a turn.
  unfoldable pub resume : ℕ → InventoryGateway → Result (Turn S) → Run S
  resume fuel gateway r = elim r [
    | err e ↦ some (err e)
    | ok (Turn.last_page s') ↦ some (ok s')
    | ok (Turn.next_page q' seen' n' s') ↦ scan_pages consume limit fuel gateway q' seen' n' s'
  ]

  pub scan_pages-suc :
      (fuel : ℕ) (gateway : InventoryGateway) (q : InventoryQuery) (seen : List String) (n : ℕ)
      (s : S)
      → scan_pages consume limit (suc fuel) gateway q seen n s
        ≡ resume fuel gateway (turn consume limit gateway q seen n s)
  unfolding scan_pages resume
  scan_pages-suc fuel gateway q seen n s = refl

  resume_last :
      (fuel : ℕ) (gateway : InventoryGateway) (r : Result (ℕ × S))
      → resume fuel gateway (r >>= λ v. ok (Turn.last_page v.1)) ≡ some (done r)
  unfolding resume
  resume_last fuel gateway (err e) = refl
  resume_last fuel gateway (ok v) = refl

  resume_next :
      (fuel : ℕ) (gateway : InventoryGateway) (q' : InventoryQuery) (seen' : List String)
      (rest : ℕ → S → Result (ℕ × S))
      → ((n : ℕ) (s : S)
          → scan_pages consume limit fuel gateway q' seen' n s ≡ some (done (rest n s)))
      → (r : Result (ℕ × S))
      → resume fuel gateway (r >>= λ v. ok (Turn.next_page q' seen' v.0 v.1))
        ≡ some (done (r >>= λ v. rest v.0 v.1))
  unfolding resume
  resume_next fuel gateway q' seen' rest ih (err e) = refl
  resume_next fuel gateway q' seen' rest ih (ok v) = ih v.0 v.1

-- Between the items of two pages.
split_items :
    (size k : ℕ) (items : List AssetReference)
    → take size (drop k items) ++ drop (k + size) items ≡ drop k items
split_items size k items =
    ap (λ rest. take size (drop k items) ++ rest) (sym (drop-drop k size items))
    ∙ take-drop size (drop k items)

cursor_at_pos : (token : ℕ → PageCursor) (k : ℕ) → 0 < k → cursor_at token k ≡ some (token k)
cursor_at_pos token zero h = absurd (omega arith)
cursor_at_pos token (suc k) h = refl

pub eq_false_sym : (a b : String) → (a == b) ≡ false → (b == a) ≡ false
eq_false_sym a b h = ground (arith, eq_iff a b, eq_iff b a)

module _ {S : Type 0} (consume : AssetReference → S → Result S) (limit : ℕ)
    (gateway : InventoryGateway) (q : InventoryQuery) (items : List AssetReference)
    (token : ℕ → PageCursor) (pages : Pages gateway q items token) where
  -- No cursor behind offset `k` was handed out yet.
  abbrev Unseen : ℕ → List String → Type 0
  Unseen k seen = (j : ℕ) → k < j → j < length items → contains seen (token j) ≡ false

  turn-page :
      (k n : ℕ) (seen : List String) (s : S)
      → (k ≡ 0) ⊎ (k < length items)
      → turn consume limit gateway (query_at token q k) seen n s ≡ (
          yield_items consume limit (take q.page_size (drop k items)) n s >>= λ v.
          follow consume limit
            (next_at token (k + q.page_size) (length items))
            (query_at token q k)
            seen
            v.0
            v.1)
  unfolding turn
  turn-page k n seen s inside =
      rw (read_page_lem gateway (page_at token q items k) (pages.answers k inside))

  not_cursor :
      (k : ℕ)
      → k + q.page_size < length items
      → is_cursor (cursor_at token k) (token (k + q.page_size)) ≡ false
  not_cursor zero h = refl
  not_cursor (suc k) h =
      eq_false_sym (token (suc k)) (token (suc k + q.page_size))
        (pages.distinct (suc k) (suc k + q.page_size) (omega arith) (omega (arith, pages.size)) h)

  turn_last :
      (k n : ℕ) (seen : List String) (s : S)
      → (k ≡ 0) ⊎ (k < length items)
      → ltb (k + q.page_size) (length items) ≡ false
      → turn consume limit gateway (query_at token q k) seen n s
        ≡ (yield_items consume limit (drop k items) n s >>= λ v. ok (Turn.last_page v.1))
  unfolding follow
  turn_last k n seen s inside done_ =
      let whole : take q.page_size (drop k items) ≡ drop k items =
        take_all q.page_size (drop k items) (ground (arith, length-drop k items)) in
      turn-page k n seen s inside ∙ rw (done_, whole)

  follow_next :
      (k : ℕ) (seen : List String) (v : ℕ × S)
      → Unseen k seen
      → k + q.page_size < length items
      → follow consume limit (some (token (k + q.page_size))) (query_at token q k) seen v.0 v.1
        ≡ ok (
            Turn.next_page
              (query_at token q (k + q.page_size))
              (token (k + q.page_size) ∷ seen)
              v.0
              v.1)
  unfolding follow
  follow_next k seen v unseen more =
      let at : 0 < k + q.page_size = omega (arith, pages.size) in
      rw (
        unseen (k + q.page_size) (omega (arith, pages.size)) more,
        not_cursor k more,
        pages.text (k + q.page_size) at more,
        new_inventory_query-cursor q (some (token (k + q.page_size))) pages.valid,
        cursor_at_pos token (k + q.page_size) at,
      )

  turn_next :
      (k n : ℕ) (seen : List String) (s : S)
      → (k ≡ 0) ⊎ (k < length items)
      → Unseen k seen
      → ltb (k + q.page_size) (length items) ≡ true
      → turn consume limit gateway (query_at token q k) seen n s ≡ (
          yield_items consume limit (take q.page_size (drop k items)) n s >>= λ v. ok (
            Turn.next_page
              (query_at token q (k + q.page_size))
              (token (k + q.page_size) ∷ seen)
              v.0
              v.1))
  turn_next k n seen s inside unseen more =
      turn-page k n seen s inside
      ∙ rw more (after_page (yield_items consume limit (take q.page_size (drop k items)) n s))
    where
      after_page :
          (r : Result (ℕ × S))
          → (r >>= λ v.
              follow consume limit
                (some (token (k + q.page_size)))
                (query_at token q k)
                seen
                v.0
                v.1)
            ≡ (r >>= λ v. ok (
                Turn.next_page
                  (query_at token q (k + q.page_size))
                  (token (k + q.page_size) ∷ seen)
                  v.0
                  v.1))
      after_page (err e) = refl
      after_page (ok v) = follow_next k seen v unseen (ground arith)

  Unseen-next :
      (k : ℕ) (seen : List String)
      → Unseen k seen
      → Unseen (k + q.page_size) (token (k + q.page_size) ∷ seen)
  unfolding any
  Unseen-next k seen unseen j later inside = rw (
    pages.distinct (k + q.page_size) j (omega (arith, pages.size)) later inside,
    unseen j (omega arith) inside,
  )

  -- From offset `k` on, pages are read as one list.
  scan_pages-Pages :
      (fuel k n : ℕ) (seen : List String) (s : S)
      → length items < k + fuel
      → (k ≡ 0) ⊎ (k < length items)
      → Unseen k seen
      → scan_pages consume limit fuel gateway (query_at token q k) seen n s
        ≡ some (done (yield_items consume limit (drop k items) n s))
  scan_pages-Pages zero k n seen s enough inside unseen = absurd (ground arith)
  scan_pages-Pages (suc fuel) k n seen s enough inside unseen =
      scan_pages-suc consume limit fuel gateway (query_at token q k) seen n s
      ∙ elim (Bool-cases (ltb (k + q.page_size) (length items))) [
        | inl more ↦ rw (turn_next k n seen s inside unseen more) (
            resume_next consume limit fuel gateway (query_at token q (k + q.page_size))
              (token (k + q.page_size) ∷ seen)
              (λ n' s'. yield_items consume limit (drop (k + q.page_size) items) n' s')
              (λ n' s'.
                scan_pages-Pages fuel (k + q.page_size) n' (token (k + q.page_size) ∷ seen) s'
                  (omega (arith, pages.size)) (inr (ground arith)) (Unseen-next k seen unseen))
              (yield_items consume limit (take q.page_size (drop k items)) n s)
            ∙ ap (λ r. some (done r))
                (sym (
                    yield_items-append consume limit (take q.page_size (drop k items))
                      (drop (k + q.page_size) items) n s)
                  ∙ ap (λ xs. yield_items consume limit xs n s) (split_items q.page_size k items)))
        | inr last ↦
            rw (turn_last k n seen s inside last) (
              resume_last consume limit fuel gateway (yield_items consume limit (drop k items) n s))
      ]

-- Whatever the page size is, a traversal of a gateway that pages ends, within one turn more than
-- there are items, and comes to the loop over the items in order: all of them when they fit the
-- limit, and otherwise the refusal, unless an item up to the limit was refused before.
pub scan-Pages :
    {S : Type 0} (consume : AssetReference → S → Result S) (fuel limit spent : ℕ)
    (gateway : InventoryGateway) (q : InventoryQuery) (items : List AssetReference)
    (token : ℕ → PageCursor) (s : S)
    → Pages gateway q items token
    → length items < fuel
    → spent ≤ limit
    → scan consume fuel gateway (query_at token q 0) limit spent s
      ≡ some (limited consume (limit - spent) items s)
unfolding scan any
scan-Pages consume fuel limit spent gateway q items token s pages enough within =
    let inside : ltb limit spent ≡ false = ground arith in
    rw (inside, scan)
      (scan_pages-Pages consume (limit - spent) gateway q items token pages fuel 0 0 [] s
          (omega arith) (inl refl) (λ j later below. refl)
        ∙ ap some (yield_items-limited consume (limit - spent) items s))
