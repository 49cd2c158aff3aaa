-- ===== src/Cli/Pair/Mode.antt =====
-- internal/cli/cmd/pair.go: what a whole run of the pairing mode pairs.
use clipman_daemon.Prelude.{
  ◌≡◌, refl, ◌∙◌, inl, inr, true, none, some, List, [], arith, Bool-cases, Option-cases,
}
use clipman_daemon.Prelude.Int.{ℤ, pos, ltb_ℤ}
use clipman_daemon.Prelude.Dict.{Dict}
use clipman_daemon.Sync.Discovery.Manual.{Host}
use clipman_daemon.Sync.Node.{Services}
use clipman_daemon.Sync.Manager.{
  SyncManager, NewResult, made, not_made, enable_pairing, disable_pairing,
}
use clipman_daemon.Sync.Pairing.{PairedDevice}
use clipman_daemon.Sync.External.{ExternalCallback, internal_handler}
use clipman_daemon.Sync.Pairing as Pairing
use clipman_daemon.Sync.Pairing.Code.{Hmac}
use clipman_daemon.Cli.Pair.{
  Answers, Terminal, PairingEvent, ModeOutcome, PairError, panicked, finished, pairing_callback,
  pairing_loop, get_sync_manager, started_manager, ensure_pairing_enabled, wait_for_requests,
  enable_pairing_mode,
}
use clipman_daemon.Cli.Pair.Losing.{fresh_manager}
use clipman_daemon.Cli.Pair.Consent.{
  IsRefusing, NoConsent, pairing_loop-paired_devices, known-IsRefusing,
}

-- The devices that are paired when the command ends.
abbrev pub devices_after : {M X : Type 0} → ModeOutcome M X → Dict PairedDevice
devices_after panicked = []
devices_after (finished o) = elim o.last [ none ↦ [] | some m ↦ m.pairing.paired_devices ]

module _ {M X D : Type 0} (host : Host M) (services : Services X (Unit {0}) D) where
  disable_pairing-devices :
      (m : SyncManager M X) → (disable_pairing m).pairing.paired_devices ≡ m.pairing.paired_devices
  unfolding disable_pairing Pairing.disable_pairing
  disable_pairing-devices m = ground (arith)

  wait_for_requests-devices_after :
      (hmac : Hmac) (timeout : ℤ) (events : List PairingEvent) (m : SyncManager M X)
      → IsRefusing m.pairing
      → m.pairing.paired_devices ≡ []
      → devices_after (wait_for_requests host services hmac timeout events m) ≡ []
  unfolding wait_for_requests
  wait_for_requests-devices_after hmac timeout events m refusing nobody =
      elim (Option-cases (pairing_loop hmac m.pairing events)) [
        | inl panic ↦ rw (wait_for_requests, panic) refl
        | inr (pm, e) ↦
            let kept = pairing_loop-paired_devices hmac events m.pairing pm refusing e ∙ nobody in
            elim (Bool-cases (ltb_ℤ (pos 0) timeout)) [
              | inl times_out ↦
                  rw (wait_for_requests, e, times_out)
                    (disable_pairing-devices (record m { pairing = pm }) ∙ kept)
              | inr waits ↦ rw (wait_for_requests, e, waits) kept
            ]
      ]

  -- Enabling gives an error, or a manager with the handler; the devices are the same.
  enable_pairing_lem :
      (handler : ExternalCallback) (m : SyncManager M X)
      → m.started ≡ true
      → ((enable_pairing handler m).0.pairing.paired_devices ≡ m.pairing.paired_devices)
        × (((enable_pairing handler m).1 ≡ none)
            → (enable_pairing handler m).0.pairing.incoming_handler
              ≡ some (internal_handler handler))
  unfolding enable_pairing Pairing.enable_pairing
  enable_pairing_lem handler m runs = elim (Bool-cases m.pairing.pairing_enabled) [
    | inl on ↦ (ground (arith, runs, on), λ e. absurd (ground (arith, runs, on, e)))
    | inr off ↦ (ground (arith, runs, off), λ e. ground (arith, runs, off))
  ]

  -- If the user never answers yes and did not ask to accept all, pairing mode ends with no device paired,
  -- whatever requests came and whenever it timed out.
  pub nobody_is_paired :
      (hmac : Hmac) (a : Answers X D) (t : Terminal) (timeout : ℤ) (events : List PairingEvent)
      → NoConsent t
      → devices_after (enable_pairing_mode host services hmac a t timeout events) ≡ []
  unfolding enable_pairing_mode
  nobody_is_paired hmac a t timeout events no_consent = go (get_sync_manager host services a) refl
    where
      enabled :
          (m : SyncManager M X)
          → m.started ≡ true
          → m.pairing.paired_devices ≡ []
          → devices_after
              (elim (enable_pairing (pairing_callback t) m).1 as (λ _. ModeOutcome M X) [
                | some e ↦ finished (record {
                  last = some (enable_pairing (pairing_callback t) m).0;
                  lines = [];
                  error = some (PairError.failed e);
                })
                | none ↦
                    wait_for_requests host services hmac timeout events
                      (enable_pairing (pairing_callback t) m).0
              ])
            ≡ []
      enabled m runs nobody =
          let kept = enable_pairing_lem (pairing_callback t) m runs in
          elim (Option-cases (enable_pairing (pairing_callback t) m).1) [
            | inl ok ↦ rw ok (
                wait_for_requests-devices_after hmac timeout events
                  (enable_pairing (pairing_callback t) m).0
                  (known-IsRefusing t (enable_pairing (pairing_callback t) m).0.pairing no_consent
                    (kept.1 ok))
                  (kept.0 ∙ nobody))
            | inr (e, refused) ↦ rw refused (kept.0 ∙ nobody)
          ]

      go :
          (r : NewResult M X)
          → get_sync_manager host services a ≡ r
          → devices_after (enable_pairing_mode host services hmac a t timeout events) ≡ []
      go (not_made x) e = rw (enable_pairing_mode, e) refl
      go (made m) e = elim (Option-cases (ensure_pairing_enabled host services a m)) [
        | inl ok ↦
            let fresh = fresh_manager host services a m e in
            rw (enable_pairing_mode, e, ok)
              (enabled (started_manager host services a m) fresh.1 fresh.0)
        | inr (x, refused) ↦ rw (enable_pairing_mode, e, refused) refl
      ]
