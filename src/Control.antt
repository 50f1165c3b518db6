-- ===== src/Control.antt =====
-- The control adapter (afterburner/integration/macm.py): the shared region that MSI Afterburner maps,
-- the writes into it, and the client that copies them back.
pub mod Words
pub mod Write
pub mod Read
pub mod Client
pub mod Header
pub mod Layout
