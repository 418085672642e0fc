-- ===== src/Config.antt =====
-- Package config: the part of the configuration that changes while requests are served.
pub mod ApiKeys
pub mod Accounts
