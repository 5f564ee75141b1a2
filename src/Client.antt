-- ===== src/Client.antt =====
-- internal/libvirtclient: everything that talks to the libvirt host, a module for each source file.
pub mod Connection
pub mod Infra
pub mod Volumes
pub mod CloudInit
pub mod Domains
pub mod Provider
