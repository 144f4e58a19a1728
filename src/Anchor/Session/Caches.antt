-- ===== src/Anchor/Session/Caches.antt =====
-- What `AnchorSession` (stellar/src/anchor/session.ts) keeps between steps: the toml, the asset, the token and the customer.
use stellar_voice_control_pr.Common.{true, none, some, String, ok, if◌then◌else◌}
use stellar_voice_control_pr.Common.Action.{◌>>=◌, ◌>>◌}
use stellar_voice_control_pr.Anchor.{AnchorAsset, AuthToken, AnchorPort, is_expired}
use stellar_voice_control_pr.Anchor.Session.State.{Step, faulty, lift, call}

module _ {W T : Type 0} (port : AnchorPort W T) where
  -- `toml`: a failed discovery is not kept.
  unfoldable pub toml : Step W T T
  toml s = elim s.toml_cache [
    | some t ↦ (ok t, s)
    | none ↦ (do t ← call port.discover; (λ u. (ok t, record u { toml_cache = some t }))) s
  ]

  -- `asset`
  unfoldable pub anchor_asset : Step W T AnchorAsset
  unfolding toml
  anchor_asset s = elim s.asset_cache [
    | some a ↦ (ok a, s)
    | none ↦
        (do
          t ← toml
          a ← lift (faulty (port.find_asset t))
          (λ u. (ok a, record u { asset_cache = some a })))
          s
  ]

  -- `authenticate`, and the token that it caches.
  unfoldable pub log_in : Step W T AuthToken
  unfolding toml
  log_in = do
    t ← toml
    token ← call (port.authenticate t)
    (λ s. (ok token, record s { token_cache = some token }))

  -- `token`: a login where there is no token, or it is about to expire.
  unfoldable pub token : Step W T AuthToken
  unfolding log_in is_expired
  token s = elim s.token_cache [
    | none ↦ log_in s
    | some t ↦ if is_expired (some t) (port.now s.world) then log_in s else (ok t, s)
  ]

  -- `ensureCustomer`, and the note that it succeeded.
  unfoldable pub ask_customer : Step W T (Unit {0})
  unfolding toml token
  ask_customer = do
    t ← toml
    jwt ← token
    call (port.ensure_customer t jwt)
    (λ s. (ok tt, record s { customer_ok = true }))

  -- `kyc`
  unfoldable pub ensure_kyc : Step W T (Unit {0})
  unfolding ask_customer
  ensure_kyc s = if s.customer_ok then (ok tt, s) else ask_customer s

  -- `kycForTransaction`
  unfoldable pub kyc_for_transaction : String → Step W T (Unit {0})
  unfolding toml token
  kyc_for_transaction id = do
    t ← toml
    jwt ← token
    call (port.ensure_transaction_customer t jwt id)
