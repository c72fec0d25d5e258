-- ===== src/Tests.antt =====
-- Tests of the definitions, and the theorems at concrete inputs.
mod Sample
mod StoreTests
mod LeaseTests
mod DigestTests
mod ListingTests
mod LogTests
mod ChunkTests
mod ArchiveTests
mod EpisodeTests
mod TriageTests
mod NetTests
mod LlmTests
mod RetentionTests
mod SummaryTests
mod RunnerTests
mod QueryTests
