-- ===== src/Errors.antt =====
-- The exceptions that the modelled code raises, and the results that carry them.
use powerfactory_mcp.Prelude.{Option, String, Bool, true, false, not, ◌≡◌, refl}
use powerfactory_mcp.Domain.Values.{WorkflowVersion}
use powerfactory_mcp.Domain.Operation.{OperationState}
use powerfactory_mcp.Domain.Lease.{ContextLease, LeaseState}

pub data InventoryServiceErrorCode : Type 0 where
  bound_exceeded class_mismatch other_configuration cursor_loop : InventoryServiceErrorCode
  duplicate_product_identity invalid_gateway_response not_found : InventoryServiceErrorCode
  project_mismatch revision_mismatch unresolved_identity : InventoryServiceErrorCode

-- A `ValueError` of a shared check carries the field's name, any other one the fixed part of its
-- message. The other constructors are the exception classes of the stores.
pub data Error : Type 0 where
  not_text too_long not_aware not_uuid4 not_positive value_error : String → Error
  integrity_error : Error
  workflow_not_found workflow_already_exists : String → Error
  workflow_idempotency_conflict : String → String → Error
  workflow_version_conflict : String → WorkflowVersion → WorkflowVersion → Error
  lease_not_found : String → Error
  lease_busy : ContextLease → Error
  lease_workflow_version_conflict : String → WorkflowVersion → WorkflowVersion → Error
  lease_fence_rejected : ContextLease → String → Error
  lease_cannot_expire : LeaseState → Error
  lease_not_expired : Error
  operation_not_found : String → Error
  operation_key_conflict : Error
  invalid_operation_transition : OperationState → Option OperationState → Error
  inventory_service_error : InventoryServiceErrorCode → Error
  configuration_mismatch : Error
  invalid_operation cursor_invalid cursor_stale : String → Error
  unknown_operation_handler : String → Error
  worker_closed engine_quarantined queue_capacity : Error

-- What a method comes to: it raises, or it returns.
pub data Result {ℓ} (Value : Type ℓ) : Type ℓ where
  err : Error → Result Value
  ok : Value → Result Value

-- `if test: raise e`.
abbrev pub refuse : Bool → Error → Result (Unit {0})
refuse false e = ok tt
refuse true e = err e

-- `if not test: raise e`.
abbrev pub guard : Bool → Error → Result (Unit {0})
guard test e = refuse (not test) e

-- One statement after another; an exception ends the chain.
infixl 5 ◌>>=◌ ◌>>◌
abbrev pub ◌>>=◌ {κ ν} :
    {Value : Type κ} {Next : Type ν} → Result Value → (Value → Result Next) → Result Next
err raised >>= rest = err raised
ok value >>= rest = rest value

abbrev pub ◌>>◌ {ν} : {Next : Type ν} → Result (Unit {0}) → Result Next → Result Next
checks >> rest = checks >>= λ done. rest

-- Inversion: a chain that returns has passed its first part, and the rest has returned from there.
pub >>=-eq-ok {κ ν} :
    {Value : Type κ} {Next : Type ν} (first : Result Value) (rest : Value → Result Next)
    {last : Next}
    → (first >>= rest) ≡ ok last
    → (value : Value) × (first ≡ ok value) × (rest value ≡ ok last)
>>=-eq-ok (err raised) rest returned = cc
>>=-eq-ok (ok value) rest returned = (value, refl, returned)

pub guard-eq-ok : (b : Bool) (e : Error) {u : Unit {0}} → guard b e ≡ ok u → b ≡ true
guard-eq-ok true e h = refl
guard-eq-ok false e h = cc

pub refuse-eq-ok : (b : Bool) (e : Error) {u : Unit {0}} → refuse b e ≡ ok u → b ≡ false
refuse-eq-ok true e h = cc
refuse-eq-ok false e h = refl
