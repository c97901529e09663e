-- ===== src/Samples.antt =====
-- Concrete runs at which the theorems of the other modules are applied.
pub mod Limits
pub mod Delegates
pub mod Desks
pub mod Messages
pub mod Gates
pub mod Recall
pub mod Lines
pub mod Workers
pub mod Plans
pub mod Reviews
pub mod Todos
pub mod Turns
