-- ===== src/Cli/Pair/Losing.antt =====
-- internal/cli/cmd/pair.go: what a run of the command knows of the runs before.
use clipman_daemon.Prelude.{
  ℕ, ◌≡◌, refl, sym, ap, ◌∙◌, true, false, some, [], Bytes, arith, is_some,
}
use clipman_daemon.Prelude.Dict.{Dict, lookup}
use clipman_daemon.Sync.Config.{SyncConfig}
use clipman_daemon.Sync.Discovery.Manual.{Host}
use clipman_daemon.Sync.Node.{Services}
use clipman_daemon.Sync.Node.Making.{Making, NodeResult, new_node, created, failed}
use clipman_daemon.Sync.Manager.{
  SyncManager, NewResult, made, not_made, new, start, is_paired, get_paired_devices,
}
use clipman_daemon.Sync.Pairing.{PairedDevice, new_pairing_manager}
use clipman_daemon.Sync.External.{ExternalDevice}
use clipman_daemon.Sync.Pairing as Pairing
use clipman_daemon.Cli.Pair.{
  Answers, no_devices, get_sync_manager, started_manager, list_paired_devices, remove, remove_from,
  list_lines,
}

module _ {M X D : Type 0} (host : Host M) (services : Services X (Unit {0}) D) where
  no_devices_yet :
      (m : SyncManager M X)
      → m.pairing.paired_devices ≡ []
      → (get_paired_devices m ≡ []) × ((peer_id : Bytes) → is_paired m peer_id ≡ false)
  unfolding get_paired_devices is_paired Pairing.get_paired_devices Pairing.is_paired lookup
  no_devices_yet m none_paired = (
    ground (arith, none_paired),
    λ peer_id. ground (arith, ap (λ d. is_some (lookup peer_id d)) none_paired),
  )

  start-paired_devices :
      (a : Answers X D) (m : SyncManager M X)
      → (started_manager host services a m).pairing ≡ m.pairing
  unfolding started_manager start
  start-paired_devices a m = ground (arith)

  devices_of : NewResult M X → Dict PairedDevice
  devices_of (made m) = m.pairing.paired_devices
  devices_of (not_made x) = []

  new-paired_devices :
      (making : Making X) (c : SyncConfig) (address : Bytes) (m : SyncManager M X)
      → new host making c address ≡ made m
      → m.pairing.paired_devices ≡ []
  unfolding new new_pairing_manager devices_of
  new-paired_devices making c address m e =
      sym (ap devices_of e) ∙ go (new_node host tt making c) refl
    where
      go :
          (n : NodeResult M X (Unit {0}))
          → new_node host tt making c ≡ n
          → devices_of (new host making c address) ≡ []
      go (created n) e' = rw (new, e') refl
      go (failed x) e' = rw (new, e') refl

  -- The manager of a run, started, has no devices and does not pair yet.
  pub fresh_manager :
      (a : Answers X D) (m : SyncManager M X)
      → get_sync_manager host services a ≡ made m
      → ((started_manager host services a m).pairing.paired_devices ≡ [])
        × ((started_manager host services a m).started ≡ true)
  unfolding get_sync_manager started_manager start
  fresh_manager a m e = (
    ap (λ p. p.paired_devices) (start-paired_devices a m)
        ∙ new-paired_devices a.making a.config a.address m e,
    ground (arith),
  )

  -- Once its manager is made, the command lists no device and removes none: the list is the text for no
  -- devices, and a removal fails.
  pub pairings_are_lost :
      (a : Answers X D) (since : ExternalDevice → ℕ × ℕ) (peer_id : Bytes) (m : SyncManager M X)
      → get_sync_manager host services a ≡ made m
      → ((list_paired_devices host services a since).lines ≡ list_lines since [])
        × ((remove host services a peer_id).error ≡ some no_devices)
  unfolding list_paired_devices remove remove_from get_sync_manager
  pairings_are_lost a since peer_id m e =
      let fresh = new-paired_devices a.making a.config a.address m e in
      let m' = started_manager host services a m in
      let none_yet =
        no_devices_yet m' (ap (λ p. p.paired_devices) (start-paired_devices a m) ∙ fresh) in
      (
        rw (list_paired_devices, e, none_yet.0) refl,
        rw (remove, e, remove_from, none_yet.1 peer_id, none_yet.0) refl,
      )
