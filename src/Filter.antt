-- ===== src/Filter.antt =====
-- The filter language of src/filter.rs, and what conditional writes make of it.
pub mod Syntax
pub mod Parse
pub mod Eval
pub mod Conditions
