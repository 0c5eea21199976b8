-- ===== src/Persistence/LeaseStore/Moves.antt =====
-- What one call may do to the lease table and to the fencing counters: the locks of an abstract
-- service, with one holder for a scope and tokens that grow.
use mathlib.Core.Option
use powerfactory_mcp.Prelude.{
  ℕ, subst, ◌+◌, String, ◌≡◌, refl, sym, ap, ◌∙◌, Bool, true, false, ◌&&◌, ◌==◌, Option, none, some,
  List, [], ◌∷◌, ◌++◌, arith, eq_iff, Bool-cases, inl, inr, if◌then◌else◌,
}
use powerfactory_mcp.Errors.{ok}
use powerfactory_mcp.Table.{or_else, find, update, delete, find-append, find-update, find-fits}
use powerfactory_mcp.Domain.Lease.{ContextLease}
use powerfactory_mcp.Persistence.Database.{Database, FenceCounter}
use powerfactory_mcp.Persistence.Writers.{
  counter_at, lease_at, set_counter, next_token, mint_fencing_token, put_lease, write_lease_row,
}
use powerfactory_mcp.Persistence.LeaseStore.Holder.{current}

-- The last token of a scope, 0 before its first.
abbrev pub last_of : Option FenceCounter → ℕ
last_of none = 0
last_of (some c) = c.last_fencing_token

unfoldable pub last_token : String → String → List FenceCounter → ℕ
last_token digest key cs = last_of (find (counter_at digest key) cs)

abbrev pub same_scope : String → String → String → String → Bool
same_scope d k digest key = d == digest && k == key

-- Only the scope's own counter changes, by one.
pub record Minted (digest key : String) (token : ℕ) (db db' : Database) : Type 0 where
  pub next : token ≡ last_token digest key db.context_lease_fence_counters + 1
  pub counters :
      (d k : String)
      → last_token d k db'.context_lease_fence_counters ≡ (
          if same_scope digest key d k
          then token
          else last_token d k db.context_lease_fence_counters)

pub data LeaseMove (db db' : Database) : Type 0 where
  idle :
      db'.context_leases ≡ db.context_leases
      → db'.context_lease_fence_counters ≡ db.context_lease_fence_counters
      → LeaseMove db db'
  granted :
      (l : ContextLease)
      → current l.service_scope_digest l.configuration_key db ≡ none
      → Minted l.service_scope_digest l.configuration_key l.fencing_token db db'
      → db'.context_leases ≡ db.context_leases ++ l ∷ []
      → LeaseMove db db'
  replaced :
      (l next : ContextLease)
      → current l.service_scope_digest l.configuration_key db ≡ some l
      → next.service_scope_digest ≡ l.service_scope_digest
      → next.configuration_key ≡ l.configuration_key
      → next.fencing_token ≡ l.fencing_token
      → db'.context_leases
        ≡ update (lease_at l.service_scope_digest l.configuration_key) (λ r. next) db.context_leases
      → db'.context_lease_fence_counters ≡ db.context_lease_fence_counters
      → LeaseMove db db'
  freed :
      (l : ContextLease)
      → current l.service_scope_digest l.configuration_key db ≡ some l
      → db'.context_leases
        ≡ delete (lease_at l.service_scope_digest l.configuration_key) db.context_leases
      → db'.context_lease_fence_counters ≡ db.context_lease_fence_counters
      → LeaseMove db db'

pub same_scope_eq :
    (d k digest key : String) → same_scope d k digest key ≡ true → (d ≡ digest) × (k ≡ key)
same_scope_eq d k digest key h = ground (arith, eq_iff d digest, eq_iff k key)

pub same_scope_refl : (d k : String) → same_scope d k d k ≡ true
same_scope_refl d k = ground (arith, eq_iff d d, eq_iff k k)

-- A row of one scope is not one of another.
pub same_scope_join :
    (d k d1 k1 d2 k2 : String)
    → same_scope d k d1 k1 ≡ true
    → same_scope d k d2 k2 ≡ true
    → same_scope d1 k1 d2 k2 ≡ true
same_scope_join d k d1 k1 d2 k2 h1 h2 =
    ground (arith, eq_iff d d1, eq_iff k k1, eq_iff d d2, eq_iff k k2, eq_iff d1 d2, eq_iff k1 k2)

pub set_counter_self :
    (digest key : String) (token : ℕ) (cs : List FenceCounter) (o : Option FenceCounter)
    → find (counter_at digest key) cs ≡ o
    → last_token digest key (set_counter digest key token o cs) ≡ token
unfolding set_counter last_token
set_counter_self digest key token cs none e =
    rw (find-append (counter_at digest key) cs _, e)
      (unfold find in rw (same_scope_refl digest key))
set_counter_self digest key token cs (some c) e = rw (
  find-update (counter_at digest key) (counter_at digest key)
      (λ r. record r { last_fencing_token = token }) (λ r _. refl) cs,
  e,
  find-fits (counter_at digest key) cs e,
)

kept_counter :
    (digest key d k : String) (token : ℕ) (o : Option FenceCounter)
    → ((r : FenceCounter) → o ≡ some r → counter_at d k r ≡ true)
    → same_scope digest key d k ≡ false
    → Option.map
        (λ (r : FenceCounter).
          if counter_at digest key r then record r { last_fencing_token = token } else r)
        o
      ≡ o
kept_counter digest key d k token none fits other = refl
kept_counter digest key d k token (some r) fits other =
    elim (Bool-cases (counter_at digest key r)) [
      | inl hit ↦ cc (
        other,
        same_scope_join r.service_scope_digest r.configuration_key digest key d k hit (fits r refl),
      )
      | inr miss ↦ rw miss
    ]

set_counter_other :
    (digest key d k : String) (token : ℕ) (cs : List FenceCounter) (o : Option FenceCounter)
    → same_scope digest key d k ≡ false
    → last_token d k (set_counter digest key token o cs) ≡ last_token d k cs
unfolding set_counter last_token
set_counter_other digest key d k token cs none other =
    rw (find-append (counter_at d k) cs _)
      (unfold find in rw other (or_none (find (counter_at d k) cs)))
  where
    or_none : (o : Option FenceCounter) → last_of (or_else o none) ≡ last_of o
    or_none none = refl
    or_none (some c) = refl
set_counter_other digest key d k token cs (some c) other = ap last_of (
    find-update (counter_at d k) (counter_at digest key)
      (λ r. record r { last_fencing_token = token }) (λ r _. refl) cs
    ∙ kept_counter digest key d k token (find (counter_at d k) cs)
        (λ r e. find-fits (counter_at d k) cs e) other)

set_counter_lem :
    (digest key : String) (token : ℕ) (cs : List FenceCounter) (o : Option FenceCounter)
    → find (counter_at digest key) cs ≡ o
    → (d k : String)
    → last_token d k (set_counter digest key token o cs)
      ≡ (if same_scope digest key d k then token else last_token d k cs)
set_counter_lem digest key token cs o e d k = elim (Bool-cases (same_scope digest key d k)) [
  | inl same ↦
      let own = set_counter_self digest key token cs o e in
      let (p, r) = same_scope_eq digest key d k same in
      rw same (
        subst (λ x. last_token x k (set_counter digest key token o cs) ≡ token) p
          (subst (λ y. last_token digest y (set_counter digest key token o cs) ≡ token) r own))
  | inr other ↦ rw other (set_counter_other digest key d k token cs o other)
]

next_token-eq-last : (o : Option FenceCounter) → next_token o ≡ last_of o + 1
next_token-eq-last none = refl
next_token-eq-last (some c) = refl

-- Minting moves the scope's own counter by one, and touches no other table.
pub mint_fencing_token-eq-ok :
    (digest key : String) (db : Database) {token : ℕ} {db' : Database}
    → mint_fencing_token digest key db ≡ ok (token, db')
    → (cs : List FenceCounter) × (db' ≡ record db { context_lease_fence_counters = cs })
      × Minted digest key token db db'
unfolding mint_fencing_token last_token
mint_fencing_token-eq-ok digest key db {token} {db'} h = (
  cs,
  wrote,
  record {
    next = sym minted ∙ next_token-eq-last row;
    counters = λ d k.
        ap (λ x. last_token d k x.context_lease_fence_counters) wrote
        ∙ subst
            (λ t. last_token d k cs ≡ (
              if same_scope digest key d k
              then t
              else last_token d k db.context_lease_fence_counters))
            minted
            (set_counter_lem digest key (next_token row) db.context_lease_fence_counters row refl d
              k);
  },
)
  where
    row : Option FenceCounter
    row = find (counter_at digest key) db.context_lease_fence_counters

    cs : List FenceCounter
    cs = set_counter digest key (next_token row) row db.context_lease_fence_counters

    minted : next_token row ≡ token
    minted = ground arith

    wrote : db' ≡ record db { context_lease_fence_counters = cs }
    wrote = ground arith

-- Writing a lease over its scope's row, or a first one.
pub write_lease_row_over :
    (l : ContextLease) (db : Database) (old : ContextLease) {u : Unit {0}} {db' : Database}
    → current l.service_scope_digest l.configuration_key db ≡ some old
    → write_lease_row l db ≡ ok (u, db')
    → db' ≡ record db {
      context_leases =
          update (lease_at l.service_scope_digest l.configuration_key) (λ r. l) db.context_leases;
    }
unfolding write_lease_row put_lease current
write_lease_row_over l db old found h = ground arith

pub write_lease_row_first :
    (l : ContextLease) (db : Database) {u : Unit {0}} {db' : Database}
    → current l.service_scope_digest l.configuration_key db ≡ none
    → write_lease_row l db ≡ ok (u, db')
    → db' ≡ record db { context_leases = db.context_leases ++ l ∷ [] }
unfolding write_lease_row put_lease current
write_lease_row_first l db found h = ground arith
