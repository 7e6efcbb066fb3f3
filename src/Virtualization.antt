-- ===== src/Virtualization.antt =====
-- The virtual devices of src/bridge.cpp: the publication of their resources, the HAN device table, and
-- the identifiers of src/hash.cpp and src/device_information.cpp.
pub mod Publish
pub mod Identity
pub mod Table
