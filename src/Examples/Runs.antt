-- ===== src/Examples/Runs.antt =====
-- Redaction at concrete texts.
use ma_at.Prelude.{◌≡◌, refl, text}
use ma_at.Redact.{redact}

url : redact (text "see https://a.b/c d") ≡ text "see [redacted-url] d"
unfolding redact text
url = refl

token : redact (text "key abcdefghijklmnopqrstuvwxyz0 end") ≡ text "key [redacted] end"
unfolding redact text
token = refl

env_name :
    redact (text "ARBITRUM_INTENT_MANAGER_ADDRESS not set")
    ≡ text "ARBITRUM_INTENT_MANAGER_ADDRESS not set"
unfolding redact text
env_name = refl

reason_code : redact (text "insufficient_available_capital") ≡ text "insufficient_available_capital"
unfolding redact text
reason_code = refl
