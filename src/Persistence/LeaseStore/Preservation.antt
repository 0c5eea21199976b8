-- ===== src/Persistence/LeaseStore/Preservation.antt =====
-- Every move of the lease tables keeps their invariant.
use powerfactory_mcp.Prelude.{
  ◌+◌, ◌≤◌, String, ◌≡◌, refl, sym, ◌∙◌, true, none, some, List, [], ◌∷◌, ◌++◌, arith, Bool-cases,
  inl, inr, if◌then◌else◌,
}
use powerfactory_mcp.Table.{count, update, delete}
use powerfactory_mcp.Table.Counts.{count-append, count-delete-le, count-none}
use powerfactory_mcp.Domain.Lease.{ContextLease}
use powerfactory_mcp.Persistence.Database.{Database}
use powerfactory_mcp.Persistence.Writers.{lease_at}
use powerfactory_mcp.Persistence.LeaseStore.Holder.{current}
use powerfactory_mcp.Persistence.LeaseStore.Moves.{
  Minted, LeaseMove, idle, granted, replaced, freed,
}
use powerfactory_mcp.Persistence.LeaseStore.Invariant.{
  last, LeaseInv, scope_subst, current-granted, current-freed_self, current-freed_other,
  current-replaced_self, current-replaced_other, count_replaced,
}

count_one :
    (d k : String) (ls : List ContextLease) (l : ContextLease)
    → count (lease_at d k) (ls ++ l ∷ [])
      ≡ count (lease_at d k) ls + (if lease_at d k l then 1 else 0)
unfolding count
count_one d k ls l = ground (arith, count-append (lease_at d k) ls (l ∷ []))

module _ (db db' : Database) (inv : LeaseInv db) (l : ContextLease)
    (free : current l.service_scope_digest l.configuration_key db ≡ none)
    (minted : Minted l.service_scope_digest l.configuration_key l.fencing_token db db')
    (e : db'.context_leases ≡ db.context_leases ++ l ∷ []) where
  free_at : (d k : String) → lease_at d k l ≡ true → current d k db ≡ none
  free_at d k hit =
      scope_subst (λ a b. current a b db ≡ none) l.service_scope_digest l.configuration_key d k hit
        free

  granted_one : (d k : String) → count (lease_at d k) db'.context_leases ≤ 1
  unfolding current
  granted_one d k = rw e (elim (Bool-cases (lease_at d k l)) [
    | inl hit ↦ ground (
      arith,
      count_one d k db.context_leases l,
      count-none (lease_at d k) db.context_leases (free_at d k hit),
    )
    | inr miss ↦ ground (arith, count_one d k db.context_leases l, inv.one_per_scope d k)
  ])

  granted_newest :
      (d k : String) (x : ContextLease) → current d k db' ≡ some x → x.fencing_token ≡ last d k db'
  granted_newest d k x h = elim (Bool-cases (lease_at d k l)) [
    | inl hit ↦
        ground (arith, current-granted db db' l e d k, h, minted.counters d k, free_at d k hit)
    | inr miss ↦
        ground (arith, current-granted db db' l e d k, h, minted.counters d k, inv.newest d k x)
  ]

module _ (db db' : Database) (inv : LeaseInv db) (l next : ContextLease)
    (found : current l.service_scope_digest l.configuration_key db ≡ some l)
    (same_digest : next.service_scope_digest ≡ l.service_scope_digest)
    (same_key : next.configuration_key ≡ l.configuration_key)
    (same_token : next.fencing_token ≡ l.fencing_token)
    (e : db'.context_leases
      ≡ update (lease_at l.service_scope_digest l.configuration_key) (λ r. next) db.context_leases)
    (counters : db'.context_lease_fence_counters ≡ db.context_lease_fence_counters) where
  replaced_newest :
      (d k : String) (x : ContextLease) → current d k db' ≡ some x → x.fencing_token ≡ last d k db'
  replaced_newest d k x h = rw counters (elim (Bool-cases (lease_at d k l)) [
    | inl hit ↦ ground (
      arith,
      scope_subst (λ a b. current a b db' ≡ some next) l.service_scope_digest l.configuration_key d
          k hit (current-replaced_self db db' l next same_digest same_key e found),
      scope_subst (λ a b. l.fencing_token ≡ last a b db) l.service_scope_digest l.configuration_key
          d k hit (inv.newest l.service_scope_digest l.configuration_key l found),
    )
    | inr miss ↦
        inv.newest d k x
          (sym (current-replaced_other db db' l next same_digest same_key e d k miss) ∙ h)
  ])

module _ (db db' : Database) (inv : LeaseInv db) (l : ContextLease)
    (e : db'.context_leases
      ≡ delete (lease_at l.service_scope_digest l.configuration_key) db.context_leases)
    (counters : db'.context_lease_fence_counters ≡ db.context_lease_fence_counters) where
  freed_one : (d k : String) → count (lease_at d k) db'.context_leases ≤ 1
  freed_one d k = rw e (
      omega (
        arith,
        inv.one_per_scope d k,
        count-delete-le (lease_at d k) (lease_at l.service_scope_digest l.configuration_key)
            db.context_leases,
      ))

  freed_newest :
      (d k : String) (x : ContextLease) → current d k db' ≡ some x → x.fencing_token ≡ last d k db'
  freed_newest d k x h = rw counters (elim (Bool-cases (lease_at d k l)) [
    | inl hit ↦ absurd (
        cc (
          h,
          scope_subst (λ a b. current a b db' ≡ none) l.service_scope_digest l.configuration_key d k
              hit (current-freed_self db db' l e),
        ))
    | inr miss ↦ inv.newest d k x (sym (current-freed_other db db' l e d k miss) ∙ h)
  ])

-- Every move keeps the invariant.
pub LeaseMove-LeaseInv : {db db' : Database} → LeaseMove db db' → LeaseInv db → LeaseInv db'
unfolding current
LeaseMove-LeaseInv {db} {db'} (idle ls cs) inv = record {
  one_per_scope = λ d k. rw ls (inv.one_per_scope d k);
  newest = λ d k x h. rw cs (inv.newest d k x (rw ls at h));
}
LeaseMove-LeaseInv {db} {db'} (granted l free minted e) inv = record {
  one_per_scope = granted_one db db' inv l free minted e;
  newest = granted_newest db db' inv l free minted e;
}
LeaseMove-LeaseInv {db} {db'} (replaced l next found sd sk st e cs) inv = record {
  one_per_scope = λ d k. rw (count_replaced db db' l next sd sk e d k) (inv.one_per_scope d k);
  newest = replaced_newest db db' inv l next found sd sk st e cs;
}
LeaseMove-LeaseInv {db} {db'} (freed l found e cs) inv = record {
  one_per_scope = freed_one db db' inv l e cs;
  newest = freed_newest db db' inv l e cs;
}

-- The last token of a scope never falls.
pub LeaseMove-last :
    {db db' : Database} → LeaseMove db db' → (d k : String) → last d k db ≤ last d k db'
LeaseMove-last {db} {db'} (idle ls cs) d k = rw cs (omega arith)
LeaseMove-last {db} {db'} (replaced l next found sd sk st e cs) d k = rw cs (omega arith)
LeaseMove-last {db} {db'} (freed l found e cs) d k = rw cs (omega arith)
LeaseMove-last {db} {db'} (granted l free minted e) d k = elim (Bool-cases (lease_at d k l)) [
  | inl hit ↦ ground (
    arith,
    minted.counters d k,
    minted.next,
    scope_subst (λ a b. last a b db ≡ last l.service_scope_digest l.configuration_key db)
        l.service_scope_digest l.configuration_key d k hit refl,
  )
  | inr miss ↦ ground (arith, minted.counters d k)
]
