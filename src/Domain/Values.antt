-- ===== src/Domain/Values.antt =====
-- domain/values.py: versions, timestamps and the texts that stand for digests and keys.
pub mod Checks
use powerfactory_mcp.Prelude.{
  ℕ, String, Bool, ◌&&◌, nat_eq, ltb, leb, ◌==◌, Option, none, some, ◌≡◌, true, arith, eq_iff,
  nat_eq_iff,
}

-- A `datetime`: its UTC instant in microseconds, and whether it carries a time zone. Instants are
-- compared only once both sides have passed `require_aware`.
pub record Datetime : Type 0 where
  pub micros : ℕ
  pub aware : Bool

-- `a < b` and `a <= b` on aware datetimes.
abbrev pub before : Datetime → Datetime → Bool
before a b = ltb a.micros b.micros

abbrev pub not_after : Datetime → Datetime → Bool
not_after a b = leb a.micros b.micros

-- `ConfigurationKey`, `ContentDigest` and the other typed digests: their validated `value`.
abbrev pub ConfigurationKey : Type 0
ConfigurationKey = String

abbrev pub ContentDigest : Type 0
ContentDigest = String

-- `_Revision`: `WorkflowVersion`, `WorkspaceRevision` and `ExtractionRevision` differ by tag only.
pub record Revision : Type 0 where
  pub scope_id : String
  pub counter : ℕ

abbrev pub WorkflowVersion : Type 0
WorkflowVersion = Revision

abbrev pub WorkspaceRevision : Type 0
WorkspaceRevision = Revision

-- The dataclass's `==`.
abbrev pub revision_eq : Revision → Revision → Bool
revision_eq a b = a.scope_id == b.scope_id && nat_eq a.counter b.counter

pub revision_eq_sound : (a b : Revision) → revision_eq a b ≡ true → a ≡ b
revision_eq_sound a b h =
    ground (arith, eq_iff a.scope_id b.scope_id, nat_eq_iff a.counter b.counter)

-- `models.VersionedName`.
pub record VersionedName : Type 0 where
  pub name : String
  pub version : String

-- `==` on optional texts.
abbrev pub opt_eq : Option String → Option String → Bool
opt_eq none none = Bool.true
opt_eq (some a) (some b) = a == b
opt_eq _ _ = Bool.false
