-- ===== src/Table/Counts.antt =====
-- Counting the rows that fit: key constraints, and the row counts of the writes.
use powerfactory_mcp.Prelude.{
  ◌+◌, ◌≤◌, ◌≡◌, refl, Bool, true, false, none, some, List, [], ◌∷◌, ◌++◌, Bool-cases, inl, inr,
  arith, if◌then◌else◌,
}
use powerfactory_mcp.Table.{find, any, count, update, delete}

module _ {ℓ} {A : Type ℓ} where
  pub count-append : (p : A → Bool) (rs ss : List A) → count p (rs ++ ss) ≡ count p rs + count p ss
  unfolding count
  count-append p [] ss = ground arith
  count-append p (r ∷ rs) ss = ground (arith, count-append p rs ss)

  -- One more row at the end.
  pub count_added :
      (p : A → Bool) (rs : List A) (r : A)
      → count p (rs ++ r ∷ []) ≡ count p rs + (if p r then 1 else 0)
  unfolding count
  count_added p rs r = ground (arith, count-append p rs (r ∷ []))

  pub count-update :
      (p q : A → Bool) (f : A → A)
      → ((r : A) → q r ≡ true → p (f r) ≡ p r)
      → (rs : List A) → count p (update q f rs) ≡ count p rs
  unfolding count update
  count-update p q f h [] = refl
  count-update p q f h (r ∷ rs) = ground (arith, h r, count-update p q f h rs)

  pub count-delete-le : (p q : A → Bool) (rs : List A) → count p (delete q rs) ≤ count p rs
  unfolding count delete
  count-delete-le p q [] = ground arith
  count-delete-le p q (r ∷ rs) = ground (arith, count-delete-le p q rs)

  pub count_mono :
      (p q : A → Bool)
      → ((r : A) → q r ≡ true → p r ≡ true)
      → (rs : List A) → count q rs ≤ count p rs
  unfolding count
  count_mono p q h [] = ground arith
  count_mono p q h (r ∷ rs) = ground (arith, h r, count_mono p q h rs)

  pub count-find :
      (p q : A → Bool) (rs : List A) {r : A} → find p rs ≡ some r → q r ≡ true → 1 ≤ count q rs
  unfolding find count
  count-find p q [] h fits = ground arith
  count-find p q (x ∷ rs) {r} h fits = ground (arith, count-find p q rs {r = r})

  -- No row fits: the constraint that `insert` checks.
  pub count-any : (p : A → Bool) (rs : List A) → any p rs ≡ false → count p rs ≡ 0
  unfolding any count
  count-any p [] h = refl
  count-any p (r ∷ rs) h = ground (arith, count-any p rs)

  pub count-none : (p : A → Bool) (rs : List A) → find p rs ≡ none → count p rs ≡ 0
  unfolding find count
  count-none p [] h = refl
  count-none p (r ∷ rs) h = ground (arith, count-none p rs)

  -- A row that some search finds is the one of its key, when the key has one row at most.
  pub find_unique :
      (p q : A → Bool) (rs : List A) {r : A}
      → find q rs ≡ some r
      → p r ≡ true
      → count p rs ≤ 1
      → find p rs ≡ some r
  unfolding find count
  find_unique p q [] h fits one = h
  find_unique p q (x ∷ rs) {r} h fits one =
      ground (arith, find_unique p q rs {r = r}, count-find q p rs {r = r})

  -- An update out of the rows that fit leaves none.
  pub count-update_out :
      (p : A → Bool) (f : A → A)
      → ((r : A) → p r ≡ true → p (f r) ≡ false)
      → (rs : List A) → count p (update p f rs) ≡ 0
  unfolding count update
  count-update_out p f out [] = refl
  count-update_out p f out (r ∷ rs) = ground (arith, out r, count-update_out p f out rs)

  -- Some row fits.
  pub find-of_count : (p : A → Bool) (rs : List A) → 1 ≤ count p rs → (r : A) × (find p rs ≡ some r)
  unfolding count find
  find-of_count p [] h = absurd (omega (arith, h))
  find-of_count p (r ∷ rs) h = elim (Bool-cases (p r)) [
    | inl hit ↦ (r, rw hit refl)
    | inr miss ↦ let (x, found) = find-of_count p rs (ground (arith, miss, h)) in (x, rw miss found)
  ]
