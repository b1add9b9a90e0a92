-- ===== src/Cmd.antt =====
-- The programs: cmd/yamcli and cmd/yamsrv, and the earlier ones of cmd/_bak.
pub mod Old
pub mod Yamcli
pub mod Yamsrv
