-- ===== src/Persistence/LeaseStore/Invariant.antt =====
-- One lease for a scope, and always under the newest token that the scope has given out.
use mathlib.Core.Option
use powerfactory_mcp.Prelude.{
  ℕ, ◌≤◌, String, ◌≡◌, refl, subst, ◌∙◌, Bool, true, false, Option, none, some, [], ◌∷◌, ◌++◌,
  Bool-cases, inl, inr, if◌then◌else◌,
}
use powerfactory_mcp.Table.{
  or_else, find, update, delete, count, find-append, find-update, find-fits, find-delete,
  find-delete_self,
}
use powerfactory_mcp.Table.Counts.{count-update}
use powerfactory_mcp.Domain.Lease.{ContextLease}
use powerfactory_mcp.Persistence.Database.{Database}
use powerfactory_mcp.Persistence.Writers.{lease_at}
use powerfactory_mcp.Persistence.LeaseStore.Holder.{current}
use powerfactory_mcp.Persistence.LeaseStore.Moves.{
  last_token, same_scope, same_scope_eq, same_scope_refl, same_scope_join,
}

abbrev pub last : String → String → Database → ℕ
last d k db = last_token d k db.context_lease_fence_counters

pub record LeaseInv (db : Database) : Type 0 where
  pub one_per_scope : (d k : String) → count (lease_at d k) db.context_leases ≤ 1
  pub newest :
      (d k : String) (l : ContextLease) → current d k db ≡ some l → l.fencing_token ≡ last d k db

-- The scope of a lease that is found at a scope.
pub current-scope :
    (d k : String) (db : Database) {l : ContextLease}
    → current d k db ≡ some l
    → same_scope l.service_scope_digest l.configuration_key d k ≡ true
unfolding current
current-scope d k db h = find-fits (lease_at d k) db.context_leases h

-- What holds at one name of a scope holds at the other.
pub scope_subst {ℓ} :
    (P : String → String → Type ℓ) (d k digest key : String)
    → same_scope d k digest key ≡ true
    → P d k
    → P digest key
scope_subst P d k digest key h x =
    let (p, q) = same_scope_eq d k digest key h in subst (λ a. P a key) p (subst (λ b. P d b) q x)

-- The holder of each scope after a move of each kind.
module _ (db db' : Database) (l : ContextLease) where
  abbrev own : String → String → Bool
  own d k = same_scope l.service_scope_digest l.configuration_key d k

  pub current-granted :
      db'.context_leases ≡ db.context_leases ++ l ∷ []
      → (d k : String)
      → current d k db' ≡ or_else (current d k db) (if own d k then some l else none)
  unfolding current find
  current-granted e d k = rw e (find-append (lease_at d k) db.context_leases (l ∷ []))

  pub current-freed_self :
      db'.context_leases
        ≡ delete (lease_at l.service_scope_digest l.configuration_key) db.context_leases
      → current l.service_scope_digest l.configuration_key db' ≡ none
  unfolding current
  current-freed_self e =
      rw e
        (find-delete_self (lease_at l.service_scope_digest l.configuration_key) db.context_leases)

  pub current-freed_other :
      db'.context_leases
        ≡ delete (lease_at l.service_scope_digest l.configuration_key) db.context_leases
      → (d k : String) → own d k ≡ false
      → current d k db' ≡ current d k db
  unfolding current
  current-freed_other e d k other = rw e (
      find-delete (lease_at d k) (lease_at l.service_scope_digest l.configuration_key)
        (λ r fits. apart r fits) db.context_leases)
    where
      apart :
          (r : ContextLease)
          → lease_at d k r ≡ true
          → lease_at l.service_scope_digest l.configuration_key r ≡ false
      apart r fits = elim (Bool-cases (lease_at l.service_scope_digest l.configuration_key r)) [
        | inl hit ↦ cc (
          other,
          same_scope_join r.service_scope_digest r.configuration_key l.service_scope_digest
              l.configuration_key d k hit fits,
        )
        | inr miss ↦ miss
      ]

module _ (db db' : Database) (l next : ContextLease)
    (same_digest : next.service_scope_digest ≡ l.service_scope_digest)
    (same_key : next.configuration_key ≡ l.configuration_key)
    (e : db'.context_leases
      ≡ update
          (lease_at l.service_scope_digest l.configuration_key)
          (λ r. next)
          db.context_leases) where
  stays :
      (d k : String) (r : ContextLease)
      → lease_at l.service_scope_digest l.configuration_key r ≡ true
      → lease_at d k next ≡ lease_at d k r
  stays d k r hit =
      let (p, q) =
        same_scope_eq r.service_scope_digest r.configuration_key l.service_scope_digest
          l.configuration_key hit in
      cc (p, q, same_digest, same_key)

  find_swapped :
      (d k : String)
      → current d k db'
        ≡ Option.map
            (λ r. if lease_at l.service_scope_digest l.configuration_key r then next else r)
            (current d k db)
  unfolding current
  find_swapped d k = rw e (
      find-update (lease_at d k) (lease_at l.service_scope_digest l.configuration_key) (λ r. next)
        (stays d k) db.context_leases)

  pub current-replaced_self :
      current l.service_scope_digest l.configuration_key db ≡ some l
      → current l.service_scope_digest l.configuration_key db' ≡ some next
  current-replaced_self found = rw (
    find_swapped l.service_scope_digest l.configuration_key,
    found,
    same_scope_refl l.service_scope_digest l.configuration_key,
  )

  pub current-replaced_other :
      (d k : String)
      → same_scope l.service_scope_digest l.configuration_key d k ≡ false
      → current d k db' ≡ current d k db
  current-replaced_other d k other =
      find_swapped d k ∙ unswapped (current d k db) (λ r h. current-scope d k db h)
    where
      unswapped :
          (o : Option ContextLease)
          → ((r : ContextLease) → o ≡ some r → lease_at d k r ≡ true)
          → Option.map
              (λ r. if lease_at l.service_scope_digest l.configuration_key r then next else r)
              o
            ≡ o
      unswapped none fits = refl
      unswapped (some r) fits =
          elim (Bool-cases (lease_at l.service_scope_digest l.configuration_key r)) [
            | inl hit ↦ cc (
              other,
              same_scope_join r.service_scope_digest r.configuration_key l.service_scope_digest
                  l.configuration_key d k hit (fits r refl),
            )
            | inr miss ↦ rw miss
          ]

  pub count_replaced :
      (d k : String)
      → count (lease_at d k) db'.context_leases ≡ count (lease_at d k) db.context_leases
  count_replaced d k = rw e (
      count-update (lease_at d k) (lease_at l.service_scope_digest l.configuration_key) (λ r. next)
        (stays d k) db.context_leases)
