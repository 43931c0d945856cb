-- ===== src/Gitsim.antt =====
-- pkg/gitsim: the SDK over the store, the emitter and the providers.
pub mod Options
pub mod SimRepo
pub mod RaceWindow
pub mod Simulator
pub mod ControlApi
pub mod Mux
pub mod Config
mod Tests
mod MuxTests
mod CloneTests
