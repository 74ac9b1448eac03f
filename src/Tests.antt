-- ===== src/Tests.antt =====
-- Concrete runs of the models: for each theorem with hypotheses, an input at which they hold.
pub mod Fixtures
pub mod Module
pub mod Display
pub mod DaemonRuns
pub mod SystemRuns
pub mod BlinkerRuns
pub mod StartRuns
pub mod DeviceRuns
pub mod ListingRuns
pub mod ModuleRuns
pub mod DemoRuns
pub mod StopRuns
pub mod ThreadRuns
pub mod ProcessRuns
pub mod KernelRuns
