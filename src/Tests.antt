-- ===== src/Tests.antt =====
-- The theorems at concrete inputs: one operator CA with a CRL, its agents' keys and their approvals.
mod Data
mod RevocationRuns
mod CrlRuns
mod CacheRuns
mod AccessRuns
mod AgentRuns
mod LimitRuns
mod LoginData
mod LoginRuns
mod FirstRunRuns
mod InventoryRuns
