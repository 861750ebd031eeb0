-- ===== src/Devices.antt =====
-- Signing in a television: app/services/device_pairing.py and app/services/tv_access_codes.py.
pub mod Pairing
pub mod TvAccess
