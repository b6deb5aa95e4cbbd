-- ===== src/Tests.antt =====
-- Concrete panels and calls: tests of the definitions, and the theorems at inputs that meet their
-- hypotheses.
mod Samples
mod Running
mod RuntimeTests
mod EffectTests
mod ShadowTests
mod AuthTests
mod GenesisTests
mod NodeTests
mod ObservabilityTests
mod BoundaryTests
mod BootstrapTests
