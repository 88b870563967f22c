-- ===== src/Memory/Binding.antt =====
-- What the head hash of a memory pins down.
use inbar.Prelude.{String, List}
use inbar.Chain.{IsChained}
use inbar.Memory.{ResearchMemoryRecord, Primitives}
use inbar.Memory.Refinement.{Stands}

module _ {Float : Type 0} (prims : Primitives Float) where
  abbrev Chained : String → List (ResearchMemoryRecord Float) → Type 0
  Chained =
      IsChained (λ r. r.record_body) prims.record_digest (λ r. r.previous_event_hash)
        (λ r. r.event_hash)

  abbrev IsMemoryBehind :
      List (ResearchMemoryRecord Float) → List (ResearchMemoryRecord Float) → Type 0
  IsMemoryBehind = Stands prims
