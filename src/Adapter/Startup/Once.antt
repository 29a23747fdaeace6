-- ===== src/Adapter/Startup/Once.antt =====
-- What relaySetupOnce of internal/adapter/adapter.go makes of a registration that fails, and what leaveRelay
-- makes of one that succeeded.
use fafsturmudprelay.Prelude.{
  ℕ, ◌≡◌, ◌≢◌, refl, ◌∙◌, Bool, true, false, List, [], ◌∷◌, length, ◌==◌, arith, inl, inr,
  Bool-cases, ==_iff,
}
use fafsturmudprelay.Outcome.{err}
use fafsturmudprelay.Adapter.RelayConnection.{Written}
use fafsturmudprelay.Adapter.RelayHttp.{
  RelayConfig, HttpRequest, Answer, Bodies, RegisterError, check_relay_health, register_with_relay,
}
use fafsturmudprelay.Adapter.Startup.{Setup, relay_setup, ensure_relay_ready}

module _ (net : Written → Bool) {Site : Type 0} (http : Site → HttpRequest → Site × Answer)
    (json : Bodies) (cfg : RelayConfig) where
  -- Calls of ensureRelayReady, one after the other.
  abbrev pub ensure_at : Setup Site → List ℕ → Setup Site
  ensure_at s [] = s
  ensure_at s (now ∷ times) = ensure_at (ensure_relay_ready net http json cfg s now) times

  done_stays : (s : Setup Site) (times : List ℕ) → s.setup_done ≡ true → ensure_at s times ≡ s
  unfolding ensure_relay_ready
  done_stays s [] done = refl
  done_stays s (now ∷ times) done = ground (arith, done, done_stays s times done)

  once_done :
      (s : Setup Site) (now : ℕ) → (ensure_relay_ready net http json cfg s now).setup_done ≡ true
  unfolding ensure_relay_ready
  once_done s now = ground arith

  -- A first registration that the relay server refuses, or does not answer, is the last: every later call
  -- of ensureRelayReady, at whatever times, sends no request and no hello, though the player is not
  -- registered. What stays is what the refused attempt left behind.
  pub failed_registration_is_final :
      (s : Setup Site) (now : ℕ) (times : List ℕ) (e : RegisterError)
      → s.setup_done ≡ false
      → length cfg.relay_http ≢ 0
      → (register_with_relay http json cfg (check_relay_health http json cfg s.site).0).1 ≡ err e
      → ensure_at s (now ∷ times) ≡ record {
        site = (register_with_relay http json cfg (check_relay_health http json cfg s.site).0).0;
        connection = s.connection;
        setup_done = true;
      }
  unfolding ensure_relay_ready relay_setup
  failed_registration_is_final s now times e fresh named refused =
      let done : (ensure_relay_ready net http json cfg s now).setup_done ≡ true = once_done s now in
      done_stays (ensure_relay_ready net http json cfg s now) times done
      ∙ elim (Bool-cases (length cfg.relay_http == 0)) [
        | inl z ↦ absurd (named ((==_iff (length cfg.relay_http) 0).0 z))
        | inr z ↦ ground (arith, fresh, refused, z)
      ]
