-- ===== src/Samples.antt =====
-- Concrete inputs: runs of the definitions, and each theorem at an input where its hypotheses hold.
pub mod ClientData
pub mod ClientRuns
pub mod CatchUpRuns
pub mod StoreRuns
pub mod HubRuns
pub mod CacheRuns
pub mod RefusedRuns
pub mod LogRuns
pub mod AccountRuns
pub mod FanoutRuns
