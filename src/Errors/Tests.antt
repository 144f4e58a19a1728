-- ===== src/Errors/Tests.antt =====
-- Runs of the error classification and of the backoff.
use stellar_voice_control_pr.Common.{◌≡◌, refl}
use stellar_voice_control_pr.Common.Text.{codes}
use stellar_voice_control_pr.Errors.{
  rpc, backoff_ms, classify_tx_result_code, tx_expired, Thrown, an_error,
}

third_failure : backoff_ms rpc 3 ≡ 20_000
unfolding backoff_ms
third_failure = refl

abbrev two_lines : Thrown
two_lines = an_error "TypeError" (codes "fetch failed\nat net")

late_code : (classify_tx_result_code "txTooEarly").kind ≡ tx_expired
unfolding classify_tx_result_code
late_code = refl
