-- ===== src/Migrations.antt =====
-- The schema migrations under migrations/versions, and the tables that they leave behind for the
-- models of app/models.py. The seeded rules of revision 0002 are in Routing/Seed.
pub mod Ddl
pub mod Init
pub mod Drafts
pub mod Undo
pub mod Rows
pub mod Revisions
mod Checks
pub mod Inserts
pub mod Typed
pub mod Rules
