-- ===== src/Epp.antt =====
-- eppd.c, the objects of the registry and their blobs in the store (RFC 5730 to 5733, RFC 8543).
pub mod Codec
pub mod Contact
pub mod Host
pub mod Org
pub mod PollMsg
pub mod Domain
