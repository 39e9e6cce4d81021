-- ===== src/Governance/Credentials/Redaction.antt =====
-- What redaction takes out of a message.
use market_relay.Prelude.{◌≡◌, refl, []}
use market_relay.Governance.Credentials.{
  codes, sanitize_message, substitute, match_url, match_query, match_secret, keyword, literal,
  run_length, is_authority, is_value, is_space, same_letter, redact_secrets,
}

url_test :
    sanitize_message (codes "at https://bob:pw@host?Api-Key=abc&x=1") []
    ≡ codes "at https://***@host?Api-Key=***&x=1"
unfolding sanitize_message substitute match_url match_query match_secret keyword literal run_length
    is_authority is_value is_space same_letter redact_secrets
url_test = refl
