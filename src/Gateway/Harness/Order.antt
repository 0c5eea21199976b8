-- ===== src/Gateway/Harness/Order.antt =====
-- Selecting from assets in the order of their identities keeps the order, and so does cutting out
-- a page.
use powerfactory_mcp.Prelude.{
  ℕ, zero, suc, ◌≡◌, refl, Bool, true, String, List, [], ◌∷◌, take, drop, arith, Bool-cases, inl,
  inr,
}
use powerfactory_mcp.Table.{select}
use powerfactory_mcp.Domain.Values.Checks.{codes}
use powerfactory_mcp.Domain.Assets.{AssetReference}
use powerfactory_mcp.Domain.Assets.Checks.{codes_le, str_le, identities, is_sorted}

codes_le_trans :
    (xs ys zs : List ℕ) → codes_le xs ys ≡ true → codes_le ys zs ≡ true → codes_le xs zs ≡ true
unfolding codes_le
codes_le_trans [] ys zs h k = refl
codes_le_trans (x ∷ xs) [] zs h k = cc
codes_le_trans (x ∷ xs) (y ∷ ys) [] h k = cc
codes_le_trans (x ∷ xs) (y ∷ ys) (z ∷ zs) h k = ground (arith, codes_le_trans xs ys zs)

-- `x` is at most the first of the texts.
abbrev below : String → List String → Bool
below x [] = true
below x (y ∷ ys) = str_le x y

below_trans :
    (x y : String) (ys : List String) → str_le x y ≡ true → below y ys ≡ true → below x ys ≡ true
below_trans x y [] h k = refl
below_trans x y (z ∷ zs) h k = codes_le_trans (codes x) (codes y) (codes z) h k

sorted_parts :
    (x : String) (xs : List String)
    → is_sorted (x ∷ xs) ≡ true
    → (below x xs ≡ true) × (is_sorted xs ≡ true)
unfolding is_sorted
sorted_parts x [] h = (refl, refl)
sorted_parts x (y ∷ ys) h = (ground arith, ground arith)

sorted_join :
    (x : String) (xs : List String)
    → below x xs ≡ true
    → is_sorted xs ≡ true
    → is_sorted (x ∷ xs) ≡ true
unfolding is_sorted
sorted_join x [] h k = refl
sorted_join x (y ∷ ys) h k = ground arith

module _ (p : AssetReference → Bool) where
  below-select :
      (x : String) (items : List AssetReference)
      → below x (identities items) ≡ true
      → is_sorted (identities items) ≡ true
      → below x (identities (select p items)) ≡ true
  unfolding identities select
  below-select x [] h k = refl
  below-select x (a ∷ items) h k =
      let (first, rest) = sorted_parts a.product_identity (identities items) k in
      let through =
        below-select x items (below_trans x a.product_identity (identities items) h first) rest in
      ground (arith, through)

  pub sorted-select :
      (items : List AssetReference)
      → is_sorted (identities items) ≡ true
      → is_sorted (identities (select p items)) ≡ true
  unfolding identities select
  sorted-select [] h = h
  sorted-select (a ∷ items) h =
      let (first, rest) = sorted_parts a.product_identity (identities items) h in
      elim (Bool-cases (p a)) [
        | inl here ↦ rw here (
            sorted_join a.product_identity (identities (select p items))
              (below-select a.product_identity items first rest) (sorted-select items rest))
        | inr not_here ↦ rw not_here (sorted-select items rest)
      ]

below-take :
    (x : String) (n : ℕ) (items : List AssetReference)
    → below x (identities items) ≡ true
    → below x (identities (take n items)) ≡ true
unfolding identities
below-take x zero items h = refl
below-take x (suc n) [] h = refl
below-take x (suc n) (a ∷ items) h = h

pub sorted-take :
    (n : ℕ) (items : List AssetReference)
    → is_sorted (identities items) ≡ true
    → is_sorted (identities (take n items)) ≡ true
unfolding identities is_sorted
sorted-take zero items h = refl
sorted-take (suc n) [] h = refl
sorted-take (suc n) (a ∷ items) h =
    let (first, rest) = sorted_parts a.product_identity (identities items) h in
    sorted_join a.product_identity (identities (take n items))
      (below-take a.product_identity n items first) (sorted-take n items rest)

pub sorted-drop :
    (n : ℕ) (items : List AssetReference)
    → is_sorted (identities items) ≡ true
    → is_sorted (identities (drop n items)) ≡ true
unfolding identities
sorted-drop zero items h = h
sorted-drop (suc n) [] h = h
sorted-drop (suc n) (a ∷ items) h =
    sorted-drop n items (sorted_parts a.product_identity (identities items) h).1
