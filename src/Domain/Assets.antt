-- ===== src/Domain/Assets.antt =====
-- Assets and the context that they are extracted from: the part of domain/values.py and
-- domain/models.py that inventories are made of.
pub mod Checks
use powerfactory_mcp.Prelude.{
  ℕ, String, Bool, true, false, ◌&&◌, ◌==◌, nat_eq, Option, none, some, List, ◌≡◌, refl, arith,
  eq_iff, nat_eq_iff,
}
use powerfactory_mcp.Domain.Values.{
  Datetime, ConfigurationKey, ContentDigest, Revision, revision_eq, revision_eq_sound,
  VersionedName, opt_eq,
}

pub data AssetKind : Type 0 where
  area bus line load terminal transformer : AssetKind

pub data LocatorKind : Type 0 where
  native_candidate canonical_path_fallback : LocatorKind

pub data LocatorTrust : Type 0 where
  candidate fallback verified_native rejected : LocatorTrust

pub data IdentityLifecycleState : Type 0 where
  active unresolved tombstoned : IdentityLifecycleState

pub data FreshnessLevel : Type 0 where
  cached verified live : FreshnessLevel

pub data CompletenessState : Type 0 where
  complete conservative unsupported : CompletenessState

-- `ProductIdentity`: its validated `value`.
abbrev pub ProductIdentity : Type 0
ProductIdentity = String

abbrev pub ExtractionRevision : Type 0
ExtractionRevision = Revision

pub record ProjectProvenance : Type 0 where
  pub installation_id : String
  pub profile_id : String
  pub project_key : String
  pub project_evidence : String

pub record LocatorEvidenceSchema : Type 0 where
  pub name : String
  pub version : String
  pub gateway_adapter_version : String

pub record PowerFactoryLocator : Type 0 where
  pub locator_version_id : String
  pub locator_kind : LocatorKind
  pub project_provenance : ProjectProvenance
  pub object_class : String
  pub native_field : Option String
  pub native_value : Option String
  pub canonical_path : Option String
  pub evidence_schema : LocatorEvidenceSchema
  pub observed_at : Datetime
  pub session_id : String
  pub trust : LocatorTrust
  pub native_evidence_accepted : Bool

pub record AssetReference : Type 0 where
  pub product_identity : ProductIdentity
  pub locator : PowerFactoryLocator
  pub display_name : String
  pub asset_kind : AssetKind
  pub project_key : String
  pub lifecycle_state : IdentityLifecycleState

pub record DependencySetIdentity : Type 0 where
  pub name : String
  pub version : String

pub record FreshnessEvidence : Type 0 where
  pub level : FreshnessLevel
  pub observed_at : Datetime
  pub session_id : String
  pub configuration_key : ConfigurationKey
  pub dependency_set : DependencySetIdentity
  pub evidence_reference : String
  pub policy_name : String
  pub policy_version : String
  pub operation_active : Bool

-- `fingerprint` is a `LiveStateFingerprint`, a typed digest.
pub record DependencyFingerprint : Type 0 where
  pub dependency_set : DependencySetIdentity
  pub fingerprint : ContentDigest
  pub completeness : CompletenessState
  pub observed_at : Datetime
  pub session_id : String
  pub evidence_reference : String
  pub policy : VersionedName

pub record ModelContext : Type 0 where
  pub model_context_id : String
  pub configuration_key : ConfigurationKey
  pub powerfactory_version : String
  pub assets : List AssetReference
  pub extraction_revision : ExtractionRevision
  pub extracted_at : Datetime
  pub freshness : FreshnessEvidence
  pub dependency_fingerprints : List DependencyFingerprint

-- `PageCursor`: its validated `token`.
abbrev pub PageCursor : Type 0
PageCursor = String

pub record InventoryQuery : Type 0 where
  pub configuration_key : ConfigurationKey
  pub extraction_revision : ExtractionRevision
  pub asset_kind : Option AssetKind
  pub exact_project_key : Option String
  pub page_size : ℕ
  pub cursor : Option PageCursor
  pub sort_specification : String

pub record InventoryPage : Type 0 where
  pub query : InventoryQuery
  pub items : List AssetReference
  pub next_cursor : Option PageCursor
  pub deterministic_order : Bool

-- `is` on the members of the enumerations.
abbrev pub kind_number : AssetKind → ℕ
kind_number AssetKind.area = 0
kind_number AssetKind.bus = 1
kind_number AssetKind.line = 2
kind_number AssetKind.load = 3
kind_number AssetKind.terminal = 4
kind_number AssetKind.transformer = 5

abbrev pub kind_eq : AssetKind → AssetKind → Bool
kind_eq a b = nat_eq (kind_number a) (kind_number b)

pub kind_eq_refl : (k : AssetKind) → kind_eq k k ≡ true
kind_eq_refl AssetKind.area = refl
kind_eq_refl _ = refl

abbrev pub opt_kind_eq : Option AssetKind → Option AssetKind → Bool
opt_kind_eq none none = Bool.true
opt_kind_eq (some a) (some b) = kind_eq a b
opt_kind_eq _ _ = Bool.false

abbrev pub is_active : IdentityLifecycleState → Bool
is_active IdentityLifecycleState.active = true
is_active _ = false

-- The dataclass's `==`.
abbrev pub query_eq : InventoryQuery → InventoryQuery → Bool
query_eq p q =
    p.configuration_key == q.configuration_key
    && revision_eq p.extraction_revision q.extraction_revision
    && opt_kind_eq p.asset_kind q.asset_kind
    && opt_eq p.exact_project_key q.exact_project_key
    && nat_eq p.page_size q.page_size
    && opt_eq p.cursor q.cursor
    && p.sort_specification == q.sort_specification
