-- ===== src/Sync/Node/Restart.antt =====
-- internal/sync/node.go: what a node that is stopped leaves to the next one.
use clipman_daemon.Prelude.{
  ◌≡◌, refl, ap, inl, inr, Bool, true, false, Option, none, some, List, [], ◌∷◌, Bytes, bytes_equal,
  bytes_equal_iff, bytes_equal_refl, arith, Bool-cases, All, is_some,
}
use clipman_daemon.Prelude.Dict.{Dict, lookup, insert, lookup-insert}
use clipman_daemon.Sync.Discovery.{
  DiscoveryPeerInfo, Manager, File, written, holding, save_discovered_peers, load_discovered_peers,
}
use clipman_daemon.Sync.Discovery.Manual.{Host}
use clipman_daemon.Sync.Node.{
  InternalPeerInfo, Peers, SyncNode, Services, to_internal, to_discovery, load_peers,
  discovery_peers, start, stop, save_peers,
}

-- The second, where the first has nothing.
abbrev pub or_else : {A : Type 0} → Option A → Option A → Option A
or_else none o = o
or_else (some a) o = some a

abbrev internals : Option DiscoveryPeerInfo → Option InternalPeerInfo
internals none = none
internals (some p) = some (to_internal p)

abbrev discoveries : Option InternalPeerInfo → Option DiscoveryPeerInfo
discoveries none = none
discoveries (some p) = some (to_discovery p)

internals-discoveries : (o : Option InternalPeerInfo) → internals (discoveries o) ≡ o
unfolding to_internal to_discovery
internals-discoveries none = refl
internals-discoveries (some p) = refl

-- The keys of a store are peer.IDs.
abbrev pub HasPeerIds : (Bytes → Type 0) → Dict InternalPeerInfo → Type 0
HasPeerIds IsPeerId store = All (λ e. IsPeerId e.0) store

module _ {M : Type 0} (host : Host M) (IsPeerId : Bytes → Type 0)
    (decode-id_string : (p : Bytes) → IsPeerId p → host.decode (host.id_string p) ≡ some p) where
  id_string_inj :
      (a b : Bytes) → IsPeerId a → IsPeerId b → host.id_string a ≡ host.id_string b → a ≡ b
  id_string_inj a b is_a is_b h =
      ground (arith, decode-id_string a is_a, decode-id_string b is_b, ap host.decode h)

  bytes_equal-id_string :
      (a b : Bytes)
      → IsPeerId a
      → IsPeerId b
      → bytes_equal (host.id_string a) (host.id_string b) ≡ bytes_equal a b
  bytes_equal-id_string a b is_a is_b = elim (Bool-cases (bytes_equal a b)) [
    | inl same ↦ rw (same, (bytes_equal_iff a b).0 same) (bytes_equal_refl (host.id_string b))
    | inr differ ↦ ground (
      arith,
      differ,
      bytes_equal_iff a b,
      bytes_equal_iff (host.id_string a) (host.id_string b),
      id_string_inj a b is_a is_b,
    )
  ]

  -- A key is the text of a peer.ID.
  abbrev Names : Bytes → Type 0
  Names k = (p : Bytes) × IsPeerId p × (k ≡ host.id_string p)

  abbrev IsNamed : Dict DiscoveryPeerInfo → Type 0
  IsNamed d = All (λ e. Names e.0) d

  insert-IsNamed :
      (p : Bytes) (v : DiscoveryPeerInfo) (d : Dict DiscoveryPeerInfo)
      → IsPeerId p
      → IsNamed d
      → IsNamed (insert (host.id_string p) v d)
  unfolding insert
  insert-IsNamed p v [] is_p named = ((p, is_p, refl), tt)
  insert-IsNamed p v ((k, w) ∷ d) is_p named =
      elim (Bool-cases (bytes_equal k (host.id_string p))) [
        | inl same ↦ rw (insert, same) ((p, is_p, refl), named.1)
        | inr differ ↦ rw (insert, differ) (named.0, insert-IsNamed p v d is_p named.1)
      ]

  discovery_peers-IsNamed :
      (store : Dict InternalPeerInfo)
      → HasPeerIds IsPeerId store
      → IsNamed (discovery_peers host store)
  unfolding discovery_peers
  discovery_peers-IsNamed [] ids = tt
  discovery_peers-IsNamed ((id, p) ∷ store) ids =
      insert-IsNamed id (to_discovery p) (discovery_peers host store) ids.0
        (discovery_peers-IsNamed store ids.1)

  lookup-IsNamed :
      (k : Bytes) (d : Dict DiscoveryPeerInfo) → IsNamed d → is_some (lookup k d) ≡ true → Names k
  unfolding lookup
  lookup-IsNamed k [] named there = cc (there)
  lookup-IsNamed k ((j, v) ∷ d) named there = elim (Bool-cases (bytes_equal j k)) [
    | inl same ↦ rw ((bytes_equal_iff j k).0 same) at named.0
    | inr differ ↦ lookup-IsNamed k d named.1 (rw (lookup, differ) at there)
  ]

  -- Keys that are all found in a dictionary of named keys.
  found-IsNamed :
      (d d' : Dict DiscoveryPeerInfo)
      → IsNamed d
      → All (λ e. is_some (lookup e.0 d) ≡ true) d'
      → IsNamed d'
  found-IsNamed d [] named there = tt
  found-IsNamed d ((k, v) ∷ d') named there =
      (lookup-IsNamed k d named there.0, found-IsNamed d d' named there.1)

  lookup-discovery_peers :
      (id : Bytes) (store : Dict InternalPeerInfo)
      → IsPeerId id
      → HasPeerIds IsPeerId store
      → lookup (host.id_string id) (discovery_peers host store) ≡ discoveries (lookup id store)
  unfolding discovery_peers lookup
  lookup-discovery_peers id [] is_id ids = refl
  lookup-discovery_peers id ((k, p) ∷ store) is_id ids =
      rw (lookup-insert, bytes_equal-id_string k id ids.0 is_id)
        (ground (arith, lookup-discovery_peers id store is_id ids.1))

  -- Loading the file's peers adds them to the store, over those that it has.
  lookup-load_peers :
      (id : Bytes) (d : Dict DiscoveryPeerInfo) (peers : Peers M)
      → IsPeerId id
      → IsNamed d
      → lookup id (load_peers host d peers).peer_store
        ≡ or_else (internals (lookup (host.id_string id) d)) (lookup id peers.peer_store)
  unfolding load_peers lookup
  lookup-load_peers id [] peers is_id named = refl
  lookup-load_peers id ((k, v) ∷ d) peers is_id named =
      let (p, is_p, e) = named.0 in
      rw
        (
          e,
          load_peers,
          decode-id_string p is_p,
          bytes_equal-id_string p id is_p is_id,
          lookup-insert,
        )
        (ground (arith, lookup-load_peers id d peers is_id named.1))

abbrev pub is_empty : {A : Type 0} → List A → Bool
is_empty [] = true
is_empty (x ∷ xs) = false

insert_not_empty : {A : Type 0} (k : Bytes) (v : A) (d : Dict A) → is_empty (insert k v d) ≡ false
unfolding insert
insert_not_empty k v [] = refl
insert_not_empty k v ((j, w) ∷ d) = ground arith

discovery_peers_not_empty :
    {M : Type 0} (host : Host M) (k : Bytes) (p : InternalPeerInfo) (store : Dict InternalPeerInfo)
    → is_empty (discovery_peers host ((k, p) ∷ store)) ≡ false
unfolding discovery_peers
discovery_peers_not_empty host k p store =
    insert_not_empty (host.id_string k) (to_discovery p) (discovery_peers host store)

save_all :
    {S W D : Type 0} (marshal : Dict DiscoveryPeerInfo → Option D) (m : Manager S W)
    (d : Dict DiscoveryPeerInfo) (c : D) (file : File D)
    → is_empty d ≡ false
    → m.persist_peers ≡ true
    → marshal d ≡ some c
    → save_discovered_peers marshal m d true written file ≡ (holding c, none)
unfolding save_discovered_peers
save_all marshal m [] c file full persist ok = cc
save_all marshal m (p ∷ d) c file full persist ok = rw (save_discovered_peers, persist, ok) refl

load_all :
    {S W D : Type 0} (unmarshal : D → Option (Dict DiscoveryPeerInfo)) (m : Manager S W)
    (d : Dict DiscoveryPeerInfo) (c : D)
    → m.persist_peers ≡ true
    → unmarshal c ≡ some d
    → load_discovered_peers unmarshal m (holding c) ≡ (d, none)
unfolding load_discovered_peers
load_all unmarshal m d c persist ok = rw (persist, ok) refl

module _ {M X H D : Type 0} (host : Host M) (services : Services X H D) (IsPeerId : Bytes → Type 0)
    (decode-id_string : (p : Bytes) → IsPeerId p → host.decode (host.id_string p) ≡ some p)
    (read_back : (d : Dict DiscoveryPeerInfo)
      → (c : D) × (services.marshal d ≡ some c)
        × (d' : Dict DiscoveryPeerInfo) × (services.unmarshal c ≡ some d')
        × ((k : Bytes) → lookup k d' ≡ lookup k d)
        × All (λ e. is_some (lookup e.0 d) ≡ true) d') where
  save_peers-holding :
      (n : SyncNode M X H) (file : File D) (store : Dict InternalPeerInfo)
      → n.peers.peer_store ≡ store
      → n.persist_discovered_peers ≡ true
      → n.discovery.persist_peers ≡ true
      → is_empty store ≡ false
      → save_peers host services true written file n
        ≡ (holding (read_back (discovery_peers host store)).0, none)
  unfolding save_peers
  save_peers-holding n file [] same persist keeps full = cc
  save_peers-holding n file ((k, p) ∷ store) same persist keeps full =
      let d = discovery_peers host ((k, p) ∷ store) in
      rw (same, persist)
        (save_all services.marshal n.discovery d (read_back d).0 file
          (discovery_peers_not_empty host k p store) keeps (read_back d).1)

  stop_file :
      (n : SyncNode M X H) (file : File D)
      → n.started ≡ true
      → n.persist_discovered_peers ≡ true
      → n.discovery.persist_peers ≡ true
      → is_empty n.peers.peer_store ≡ false
      → (stop host services true written file n).0
        ≡ holding (read_back (discovery_peers host n.peers.peer_store)).0
  unfolding stop
  stop_file n file on persist keeps full =
      simp (on, persist, save_peers-holding n file n.peers.peer_store refl persist keeps full) refl

  -- A node that is running, keeps its peers on disk and has some, stopped without an error of the file
  -- system: a node that starts from that file, loading its peers, has each peer of the stopped one,
  -- and besides them those that it had. JSON gives back the entries that were written, in any order,
  -- and a peer.ID is read as it is printed.
  pub stop-start :
      (n m : SyncNode M X H) (file : File D) (pubsub_made : Bool) (id : Bytes)
      → IsPeerId id
      → HasPeerIds IsPeerId n.peers.peer_store
      → n.started ≡ true
      → n.persist_discovered_peers ≡ true
      → n.discovery.persist_peers ≡ true
      → is_empty n.peers.peer_store ≡ false
      → m.started ≡ false
      → m.persist_discovered_peers ≡ true
      → m.auto_reconnect_to_peers ≡ true
      → m.discovery.persist_peers ≡ true
      → lookup id
          (start host services
            (stop host services true written file n).0
            pubsub_made
            m).peers.peer_store
        ≡ or_else (lookup id n.peers.peer_store) (lookup id m.peers.peer_store)
  unfolding start
  stop-start n m file pubsub_made id is_id ids on persist keeps full off m_persists m_loads
        m_keeps =
      let d = discovery_peers host n.peers.peer_store in
      let (c, saved, d', loaded, same, there) = read_back d in
      simp
        (
          stop_file n file on persist keeps full,
          off,
          m_persists,
          m_loads,
          load_all services.unmarshal m.discovery d' c m_keeps loaded,
          lookup-load_peers host IsPeerId decode-id_string id d' m.peers is_id (
              found-IsNamed host IsPeerId decode-id_string d d'
                (discovery_peers-IsNamed host IsPeerId decode-id_string n.peers.peer_store ids)
                there),
          same (host.id_string id),
          lookup-discovery_peers host IsPeerId decode-id_string id n.peers.peer_store is_id ids,
          internals-discoveries,
        )
        refl
