-- ===== src/Sharing/Stix/Laws.antt =====
-- The patterns and bundles that the export writes, as the importer reads them.
pub mod Escape
pub mod Bundle
