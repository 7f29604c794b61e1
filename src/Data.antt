-- ===== src/Data.antt =====
-- src/vpn_control_plane/data: the records of data.json, their validation and the catalog.
pub mod Models
pub mod Errors
pub mod Reference
pub mod Validation
pub mod Catalog
pub mod Store
pub mod Templates
pub mod File
