-- ===== src/Core/Logging/Tests.antt =====
-- A password in a line of the log.
use azm_crm.Prelude.{refl, ◌≡◌, [], ◌∷◌}
use azm_crm.Core.Logging.{
  string, other, mapping, positional, LogRecord, filter, is_sensitive, match_key, match_word,
  redact_line, sub_from,
}
use azm_crm.Core.Logging.Redaction.{filter-password}

abbrev login : LogRecord
login = record {
  msg = string "user %(user)s of api-key";
  args = mapping ((string "user", other 7) ∷ (string "api_key", other 12) ∷ []);
}

keys_hidden : filter (λ c. c) login ≡ record {
  msg = string "user %(user)s of [REDACTED]";
  args = mapping ((string "user", other 7) ∷ (string "api_key", string "[REDACTED]") ∷ []);
}
unfolding filter is_sensitive match_key match_word redact_line sub_from
keys_hidden = refl

filter-password_example :
    (filter
      (λ c. c)
      (record { msg = string "password=hunter2"; args = positional (other 3 ∷ []) })).msg
    ≡ string "[REDACTED]=hunter2"
unfolding is_sensitive match_key match_word
filter-password_example =
    filter-password (λ c. c) (λ c h. refl) "hunter2" (positional (other 3 ∷ [])) refl
