-- ===== src/PanelValidator.antt =====
-- patchpanel/validator.py: `PatchPanelValidator.validate`. The graph is a `networkx.DiGraph`, which
-- the code only calls: it is the parameter `nx`, and its documented behaviour is `GraphLaws`.
mod Library
mod Checks
pub mod Meaning
mod Graph
mod Lists
mod Pipes
mod Boundaries
pub mod Soundness
pub mod Toy
pub use Library.*
unfoldable pub use Checks.*
