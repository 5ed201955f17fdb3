-- ===== src/Auth/Spf/Prefixes.antt =====
-- The prefix test of src/auth/spf.rs on IPv4 addresses.
mod Masks
use my_mta.Auth.Spf.{high_mask, masked_equal}
