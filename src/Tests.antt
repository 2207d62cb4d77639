-- ===== src/Tests.antt =====
-- Runs of the theorems at concrete inputs.
pub mod Fixtures
pub mod CapabilityRuns
pub mod PolicyRuns
pub mod BrokerRuns
pub mod AuditRuns
pub mod ConfirmationRuns
pub mod VoiceRuns
pub mod InstallerRuns
pub mod JourneyRuns
pub mod Editor
pub mod DesktopRuns
pub mod RouterRuns
