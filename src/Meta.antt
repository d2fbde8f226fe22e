-- ===== src/Meta.antt =====
-- Reflection: include/essence/meta.
pub mod NamingConvention
pub mod JsonSerializer
