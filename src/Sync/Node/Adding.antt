-- ===== src/Sync/Node/Adding.antt =====
-- internal/sync/node.go and internal/sync/discovery: peers that are added by their address, and under
-- which context a node asks that was stopped and started again.
use clipman_daemon.Prelude.{
  ℕ, ◌≡◌, refl, ◌∙◌, ap, inl, inr, Bool, true, false, none, some, List, Bytes, bytes_equal, arith,
  Option, Option-cases, is_some,
}
use clipman_daemon.Prelude.Dict.{lookup, lookup-insert_self, lookup-delete_self}
use clipman_daemon.Sync.Discovery.{Manager, DiscoveryPeerInfo, handle_peer_discovered}
use clipman_daemon.Sync.Discovery as Discovery
use clipman_daemon.Sync.Discovery.Manual.{Host, ManualDiscovery, get_manual_discovery, manual_peer}
use clipman_daemon.Sync.Discovery.Manual as Manual
use clipman_daemon.Sync.Protocols as Protocols
use clipman_daemon.Sync.Node.{
  Peers, SyncNode, peer_discovered, add_peer_by_address, remove_peer_by_id, to_internal,
}

module _ {M : Type 0} (host : Host M) where
  -- A peer that the manual service reports is the one that the address names, not the host itself.
  add_peer-reported :
      (m : ManualDiscovery) (cancelled : Bool) (addr : Bytes) (now : ℕ) (info : DiscoveryPeerInfo)
      → (Manual.add_peer host m cancelled addr now).1 ≡ some info
      → (a : M) × (host.parse_address addr ≡ some a)
        × (id : Bytes) × (addrs : List M) × (host.address_info a ≡ some (id, addrs))
        × (bytes_equal id host.host_id ≡ false)
        × (info ≡ manual_peer host id addrs now)
  unfolding Manual.add_peer
  add_peer-reported m cancelled addr now info h = elim (Option-cases (host.parse_address addr)) [
    | inl unread ↦ ground (arith, rw (Manual.add_peer, unread) at h)
    | inr (a, read) ↦ elim (Option-cases (host.address_info a)) [
      | inl nobody ↦ ground (arith, rw (Manual.add_peer, read, nobody) at h)
      | inr (peer, known) ↦
          let (id, addrs) = peer in
          let facts : (bytes_equal id host.host_id ≡ false)
              × (info ≡ manual_peer host id addrs now) =
            ground (arith, rw (Manual.add_peer, read, known) at h) in
          (a, read, id, addrs, known, facts.0, facts.1)
    ]
  ]

  reported_or_error :
      (m : ManualDiscovery) (cancelled : Bool) (addr : Bytes) (now : ℕ)
      → (Manual.add_peer host m cancelled addr now).1 ≡ none
      → is_some (Manual.add_peer host m cancelled addr now).0 ≡ true
  unfolding Manual.add_peer
  reported_or_error m cancelled addr now h = ground (arith, h)

  service_or_error :
      {X W : Type 0} (m : Manager (Manual.AnyService X) W)
      → (get_manual_discovery m).1 ≡ none
      → is_some (get_manual_discovery m).0 ≡ true
  unfolding get_manual_discovery
  service_or_error m h = ground (arith, h)

  -- The host under a context that is cancelled whenever a connection is asked for.
  abbrev pub under_cancelled : Host M
  under_cancelled = record host { connects = λ cancelled. host.connects true }

  -- What is made of the result of the manual service.
  abbrev noticed :
      {X H : Type 0}
      → SyncNode M X H
      → Option Manual.ManualError × Option DiscoveryPeerInfo
      → SyncNode M X H × Option Manual.ManualError
  noticed n (failure, notice) = elim notice [
    | none ↦ (n, failure)
    | some info ↦ (record n { peers = handle_peer_discovered n.discovery info n.peers }, failure)
  ]

module _ {M X : Type 0} (host : Host M) where
  stored :
      (m : Manager (Manual.AnyService X) (Peers M)) (peers : Peers M) (id : Bytes) (addrs : List M)
      (now : ℕ)
      → host.decode (host.id_string id) ≡ some id
      → m.on_peer_discovered ≡ some (peer_discovered host)
      → lookup id (handle_peer_discovered m (manual_peer host id addrs now) peers).peer_store
        ≡ some (to_internal (manual_peer host id addrs now))
  unfolding handle_peer_discovered peer_discovered manual_peer
  stored m peers id addrs now decodes callback =
      rw (callback, peer_discovered, decodes)
        (lookup-insert_self id (to_internal (manual_peer host id addrs now)) peers.peer_store)

module _ {M X H : Type 0} (host : Host M) where
  added :
      (addr : Bytes) (now : ℕ) (n : SyncNode M X H)
      → (add_peer_by_address host addr now n).1 ≡ none
      → (d : ManualDiscovery) × (info : DiscoveryPeerInfo) × ((Manual.add_peer host d
            n.discovery.cancelled addr now).1
          ≡ some info)
        × ((add_peer_by_address host addr now n).0
            ≡ record n { peers = handle_peer_discovered n.discovery info n.peers })
  unfolding add_peer_by_address
  added addr now n ok = elim (Option-cases (get_manual_discovery n.discovery).1) [
    | inl nothing ↦ absurd (
        ground (
          arith,
          service_or_error host n.discovery nothing,
          rw (add_peer_by_address, nothing) at ok,
        ))
    | inr (d, found) ↦
        elim (Option-cases (Manual.add_peer host d n.discovery.cancelled addr now).1) [
          | inl silent ↦ absurd (
              ground (
                arith,
                reported_or_error host d n.discovery.cancelled addr now silent,
                rw (add_peer_by_address, found, silent) at ok,
              ))
          | inr (info, reported) ↦
              (d, info, reported, rw (add_peer_by_address, found, reported) refl)
        ]
  ]

  removed :
      (n : SyncNode M X H) (id : Bytes)
      → host.decode (host.id_string id) ≡ some id
      → lookup id (remove_peer_by_id host (host.id_string id) n).0.peers.peer_store ≡ none
  unfolding remove_peer_by_id
  removed n id decodes = rw (remove_peer_by_id, decodes) (lookup-delete_self id n.peers.peer_store)

  -- A peer that is added by its address without an error is another one than the host, and stands in
  -- the store under its peer.ID, with the addresses that were given, if the callback is the node's own
  -- and a peer.ID is read as it is printed; removing it by its identifier removes it.
  pub add_peer_by_address_lem :
      (addr : Bytes) (now : ℕ) (n : SyncNode M X H)
      → ((p : Bytes) → host.decode (host.id_string p) ≡ some p)
      → n.discovery.on_peer_discovered ≡ some (peer_discovered host)
      → (add_peer_by_address host addr now n).1 ≡ none
      → (a : M) × (host.parse_address addr ≡ some a)
        × (id : Bytes) × (addrs : List M) × (host.address_info a ≡ some (id, addrs))
        × (bytes_equal id host.host_id ≡ false)
        × (lookup id (add_peer_by_address host addr now n).0.peers.peer_store
            ≡ some (to_internal (manual_peer host id addrs now)))
        × (lookup id
              (remove_peer_by_id host
                (host.id_string id)
                (add_peer_by_address host addr now n).0).0.peers.peer_store
            ≡ none)
  add_peer_by_address_lem addr now n decodes callback ok =
      let (d, info, reported, same) = added addr now n ok in
      let (a, read, id, addrs, known, differs, is_info) =
        add_peer-reported host d n.discovery.cancelled addr now info reported in
      (
        a,
        read,
        id,
        addrs,
        known,
        differs,
        ap (λ r. lookup id r.peers.peer_store) same
            ∙ ap (λ i. lookup id (handle_peer_discovered n.discovery i n.peers).peer_store) is_info
            ∙ stored host n.discovery n.peers id addrs now (decodes id) callback,
        removed (add_peer_by_address host addr now n).0 id (decodes id),
      )
