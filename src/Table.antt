-- ===== src/Table.antt =====
-- The SQL statements that the stores issue, over a table as the list of its rows in insertion order.
pub mod Counts
use mathlib.Core.Option
use powerfactory_mcp.Prelude.{
  ℕ, suc, ◌≡◌, refl, Bool, true, false, ◌||◌, Option, none, some, List, [], ◌∷◌, ◌++◌, arith,
  if◌then◌else◌,
}
use powerfactory_mcp.Errors.{Result, ok, err, integrity_error}

module _ {ℓ} {A : Type ℓ} where
  -- SELECT ... WHERE p, `fetchone`.
  unfoldable pub find : (A → Bool) → List A → Option A
  find p [] = none
  find p (r ∷ rs) = if p r then some r else find p rs

  -- SELECT ... WHERE p, `fetchall`.
  unfoldable pub select : (A → Bool) → List A → List A
  select p [] = []
  select p (r ∷ rs) = let rest = select p rs in if p r then r ∷ rest else rest

  unfoldable pub any : (A → Bool) → List A → Bool
  any p [] = false
  any p (r ∷ rs) = p r || any p rs

  -- The number of rows that fit, as `cursor.rowcount` has it.
  unfoldable pub count : (A → Bool) → List A → ℕ
  count p [] = 0
  count p (r ∷ rs) = let rest = count p rs in if p r then suc rest else rest

  -- UPDATE ... SET f WHERE p.
  unfoldable pub update : (A → Bool) → (A → A) → List A → List A
  update p f [] = []
  update p f (r ∷ rs) = (if p r then f r else r) ∷ update p f rs

  -- DELETE ... WHERE p.
  unfoldable pub delete : (A → Bool) → List A → List A
  delete p [] = []
  delete p (r ∷ rs) = let rest = delete p rs in if p r then rest else r ∷ rest

  -- INSERT of a row, refused by the UNIQUE constraints when a stored row fits `clash`.
  unfoldable pub insert : (A → Bool) → A → List A → Result (List A)
  insert clash r rs = if any clash rs then err integrity_error else ok (rs ++ r ∷ [])

  -- `a` if there is one, else `b`.
  abbrev pub or_else : Option A → Option A → Option A
  or_else none b = b
  or_else (some a) b = some a

  pub find-append :
      (p : A → Bool) (rs ss : List A) → find p (rs ++ ss) ≡ or_else (find p rs) (find p ss)
  unfolding find
  find-append p [] ss = refl
  find-append p (r ∷ rs) ss = ground (arith, find-append p rs ss)

  -- An update that keeps `p` changes the row found, and no other.
  pub find-update :
      (p q : A → Bool) (f : A → A)
      → ((r : A) → q r ≡ true → p (f r) ≡ p r)
      → (rs : List A)
      → find p (update q f rs) ≡ Option.map (λ r. if q r then f r else r) (find p rs)
  unfolding find update
  find-update p q f h [] = refl
  find-update p q f h (r ∷ rs) = ground (arith, h r, find-update p q f h rs)

  pub find-fits : (p : A → Bool) (rs : List A) {r : A} → find p rs ≡ some r → p r ≡ true
  unfolding find
  find-fits p [] h = ground arith
  find-fits p (x ∷ rs) {r} h = ground (arith, find-fits p rs {r = r})

  -- Deleting the rows that fit leaves none.
  pub find-delete_self : (p : A → Bool) (rs : List A) → find p (delete p rs) ≡ none
  unfolding find delete
  find-delete_self p [] = refl
  find-delete_self p (r ∷ rs) = ground (arith, find-delete_self p rs)

  pub find-delete :
      (p q : A → Bool)
      → ((r : A) → p r ≡ true → q r ≡ false)
      → (rs : List A) → find p (delete q rs) ≡ find p rs
  unfolding find delete
  find-delete p q h [] = refl
  find-delete p q h (r ∷ rs) = ground (arith, h r, find-delete p q h rs)

  pub any-false : (p : A → Bool) (rs : List A) → any p rs ≡ false → find p rs ≡ none
  unfolding any find
  any-false p [] h = refl
  any-false p (r ∷ rs) h = ground (arith, any-false p rs)

  pub insert-eq-ok :
      (clash : A → Bool) (r : A) (rs : List A) {ss : List A}
      → insert clash r rs ≡ ok ss
      → (any clash rs ≡ false) × (ss ≡ rs ++ r ∷ [])
  unfolding insert
  insert-eq-ok clash r rs h = ground arith
