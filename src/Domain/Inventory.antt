-- ===== src/Domain/Inventory.antt =====
-- domain/inventory.py: the requests and the results of the inventory operations.
pub mod Checks
use powerfactory_mcp.Prelude.{ℕ, String, Option, List}
use powerfactory_mcp.Domain.Values.{ConfigurationKey}
use powerfactory_mcp.Domain.Assets.{
  AssetKind, AssetReference, ExtractionRevision, FreshnessEvidence, PageCursor, ProductIdentity,
}

pub data ExtractionWarningCode : Type 0 where
  unsupported_object_class unresolved_identity : ExtractionWarningCode

pub record ExtractionWarning : Type 0 where
  pub code : ExtractionWarningCode
  pub count : ℕ
  pub examples : List String

pub record InventoryBinding : Type 0 where
  pub configuration_key : ConfigurationKey
  pub extraction_revision : ExtractionRevision
  pub freshness : FreshnessEvidence
  pub exact_project_key : String

pub record ModelSummaryRequest : Type 0 where
  pub exact_project_key : String
  pub page_size : ℕ
  pub inventory_limit : ℕ
  pub sample_limit_per_kind : ℕ
  pub warning_example_limit : ℕ

pub record AssetKindSummary : Type 0 where
  pub asset_kind : AssetKind
  pub total_count : ℕ
  pub supported_count : ℕ
  pub unsupported_count : ℕ
  pub unresolved_count : ℕ
  pub sample_references : List AssetReference

pub record ModelSummary : Type 0 where
  pub request : ModelSummaryRequest
  pub binding : InventoryBinding
  pub categories : List AssetKindSummary
  pub total_count : ℕ
  pub supported_count : ℕ
  pub unsupported_count : ℕ
  pub unresolved_count : ℕ
  pub warnings : List ExtractionWarning

pub record ComponentListRequest : Type 0 where
  pub asset_kind : AssetKind
  pub exact_project_key : String
  pub page_size : ℕ
  pub cursor : Option PageCursor

pub record ComponentPage : Type 0 where
  pub request : ComponentListRequest
  pub binding : InventoryBinding
  pub items : List AssetReference
  pub next_cursor : Option PageCursor
  pub warnings : List ExtractionWarning

pub record AssetLookupRequest : Type 0 where
  pub product_identity : ProductIdentity
  pub asset_kind : AssetKind
  pub exact_object_class : String
  pub exact_project_key : String
  pub page_size : ℕ
  pub inventory_limit : ℕ

pub record AssetLookupResult : Type 0 where
  pub request : AssetLookupRequest
  pub binding : InventoryBinding
  pub asset : AssetReference
