-- ===== src/Access.antt =====
-- src/access.rs: the restriction texts of roles. A text is the list of its characters.
pub mod Error
pub mod Comments
pub mod Directives
pub mod Tree
pub mod Skipped
pub mod Chosen
pub mod Ends
mod Tests
