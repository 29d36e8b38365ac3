-- ===== src/Libvirt.antt =====
-- internal/libvirt: the parts that are the program's own. The calls of libvirt itself are requests
-- of `Exec`.
pub mod Names
pub mod Disks
pub mod Escape
pub mod Targets
pub mod Bounds
pub mod Escaped
