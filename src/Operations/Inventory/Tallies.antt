-- ===== src/Operations/Inventory/Tallies.antt =====
-- What the loop of `summarize` over the items of one kind makes of its tally.
use mathlib.Core.List.{append_assoc, append-nil}
use powerfactory_mcp.Prelude.{
  ℕ, zero, suc, ◌+◌, ◌-◌, ◌≡◌, refl, sym, ap, subst, ◌&&◌, not, ltb, Bool, Bool-cases, inl, inr,
  Option, none, some, List, [], ◌∷◌, ◌++◌, length, length-append, take, arith, String,
  if◌then◌else◌,
}
use powerfactory_mcp.Errors.{Result, ok, err, >>=-eq-ok}
use powerfactory_mcp.Table.{count}
use powerfactory_mcp.Domain.Assets.{AssetKind, AssetReference}
use powerfactory_mcp.Domain.Inventory.{ModelSummaryRequest}
use powerfactory_mcp.Operations.Inventory.Items.{
  Tally, WarningAccumulator, admit_unique, count_item, has_class, is_unresolved, or_new,
  summarize_item, validate_item_scope, warn,
}
use powerfactory_mcp.Operations.Inventory.Traversal.{fold_items}

abbrev pub warned : Option WarningAccumulator → ℕ
warned none = 0
warned (some w) = w.count

abbrev pub is_foreign : AssetKind → AssetReference → Bool
is_foreign kind item = not (is_unresolved item) && not (has_class kind item)

abbrev pub is_supported : AssetKind → AssetReference → Bool
is_supported kind item = not (is_unresolved item) && has_class kind item

-- What a loop over the items of a kind makes of a tally.
pub record Tallied (r : ModelSummaryRequest) (kind : AssetKind) (xs : List AssetReference)
    (s t : Tally) : Type 0 where
  pub total : t.total ≡ s.total + length xs
  pub scanned : t.scanned ≡ s.scanned + length xs
  pub supported : t.supported ≡ s.supported + count (is_supported kind) xs
  pub unsupported : t.unsupported ≡ s.unsupported + count (is_foreign kind) xs
  pub unresolved : t.unresolved ≡ s.unresolved + count is_unresolved xs
  pub unresolved_warned :
      warned t.warnings.unresolved ≡ warned s.warnings.unresolved + count is_unresolved xs
  pub foreign_warned :
      warned t.warnings.unsupported ≡ warned s.warnings.unsupported + count (is_foreign kind) xs
  pub samples : t.samples ≡ s.samples ++ take (r.sample_limit_per_kind - length s.samples) xs

noted_more : (o : Option WarningAccumulator) → (or_new o).count + 1 ≡ warned o + 1
noted_more none = refl
noted_more (some w) = refl

-- The samples after one item more.
abbrev sampled : ℕ → AssetReference → List AssetReference → List AssetReference
sampled limit x ss = if ltb (length ss) limit then ss ++ x ∷ [] else ss

sampled-take :
    (limit : ℕ) (x : AssetReference) (xs ss : List AssetReference)
    → sampled limit x ss ++ take (limit - length (sampled limit x ss)) xs
      ≡ ss ++ take (limit - length ss) (x ∷ xs)
sampled-take limit x xs ss = elim (Bool-cases (ltb (length ss) limit)) [
  | inl room ↦
      let left : limit - length ss ≡ suc (limit - suc (length ss)) = ground arith in
      let longer : length (ss ++ x ∷ []) ≡ suc (length ss) =
        omega (arith, length-append ss (x ∷ [])) in
      rw (room, left, longer) (append_assoc ss (x ∷ []) (take (limit - suc (length ss)) xs))
  | inr full ↦ let left : limit - length ss ≡ 0 = ground arith in rw (full, left) refl
]

append_take_nil : (n : ℕ) (ss : List AssetReference) → ss ++ take n [] ≡ ss
append_take_nil zero ss = append-nil ss
append_take_nil (suc n) ss = append-nil ss

tally_of : Tally → Result Tally → Tally
tally_of t (err e) = t
tally_of t (ok t') = t'

module _ (r : ModelSummaryRequest) (kind : AssetKind) where
  -- The tally before an accepted item is counted.
  abbrev pub entered : AssetReference → List String → Tally → Tally
  entered item seen s = record s {
    seen = seen;
    scanned = suc s.scanned;
    total = suc s.total;
    samples = sampled r.sample_limit_per_kind item s.samples;
  }

  -- An accepted item is counted by one of the three branches, and what follows by the others.
  count_item-Tallied :
      (x : AssetReference) (xs : List AssetReference) (seen : List String) (s t : Tally)
      → Tallied r kind xs (count_item r kind x (entered x seen s)) t
      → Tallied r kind (x ∷ xs) s t
  unfolding warn count
  count_item-Tallied x xs seen s t rest = record {
    total = ground (arith, rest.total);
    scanned = ground (arith, rest.scanned);
    supported = ground (arith, rest.supported);
    unsupported = ground (arith, rest.unsupported);
    unresolved = ground (arith, rest.unresolved);
    unresolved_warned = ground (arith, rest.unresolved_warned, noted_more s.warnings.unresolved);
    foreign_warned = ground (arith, rest.foreign_warned, noted_more s.warnings.unsupported);
    samples = ground (arith, rest.samples, sampled-take r.sample_limit_per_kind x xs s.samples);
  }

  -- The loop over a list.
  pub fold_items-Tallied :
      (xs : List AssetReference) (s t : Tally)
      → fold_items (summarize_item r kind) xs s ≡ ok t
      → Tallied r kind xs s t
  unfolding fold_items summarize_item count tally_of
  fold_items-Tallied [] s t h = subst (Tallied r kind [] s) (ap (tally_of s) h) (record {
    total = omega arith;
    scanned = omega arith;
    supported = omega arith;
    unsupported = omega arith;
    unresolved = omega arith;
    unresolved_warned = omega arith;
    foreign_warned = omega arith;
    samples = sym (append_take_nil (r.sample_limit_per_kind - length s.samples) s.samples);
  })
  fold_items-Tallied (x ∷ xs) s t h =
      let (s', eaten, h1) = >>=-eq-ok (summarize_item r kind x s) _ h in
      let (seen', new, h2) = >>=-eq-ok (admit_unique x s.seen) _ eaten in
      let (passed, scope, h3) = >>=-eq-ok (validate_item_scope x kind r.exact_project_key) _ h2 in
      count_item-Tallied x xs seen' s t (
        subst (λ u. Tallied r kind xs u t) (sym (ap (tally_of s) h3))
          (fold_items-Tallied xs s' t h1))
