-- ===== src/Compute.antt =====
-- data_platform/compute: the schemas of the Bronze tables.
pub mod BronzeSchema
