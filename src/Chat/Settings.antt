-- ===== src/Chat/Settings.antt =====
-- The settings that chat reads (config/settings/base.py). Times are in seconds.
use azm_crm.Prelude.{ℕ, ◌<◌}

pub record Settings : Type 0 where
  pub default_capacity : ℕ
  pub presence_ttl : ℕ
  pub reconnect_grace : ℕ
  pub idle_limit : ℕ
  pub idle_warning : ℕ
  pub token_max_age : ℕ

-- No key expires the moment that it is written.
pub record IsSane (s : Settings) : Type 0 where
  pub presence : 0 < s.presence_ttl
  pub grace : 0 < s.reconnect_grace

-- The values of config/settings/base.py.
abbrev pub base : Settings
base = record {
  default_capacity = 3;
  presence_ttl = 45;
  reconnect_grace = 60;
  idle_limit = 600;
  idle_warning = 480;
  token_max_age = 43200;
}
