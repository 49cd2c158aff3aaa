-- ===== src/Sync/Node/Connected.antt =====
-- internal/sync/node.go and types.go: the peers that are connected, and the routine that saves peers.
use mathlib.Core.List.{reverse-cons}
use clipman_daemon.Prelude.{
  ℕ, suc, ◌<◌, ◌≡◌, refl, sym, ap, ◌∙◌, Bool, Option, none, some, List, [], ◌∷◌, ◌++◌, map, reverse,
  Bytes, codes, ltb, if◌then◌else◌, arith, All,
}
use clipman_daemon.Prelude.Dict.{Dict, lookup}
use clipman_daemon.Sync.Discovery.{Write, File}
use clipman_daemon.Sync.Discovery.Manual.{Host}
use clipman_daemon.Sync.Node.{SyncNode, Services, InternalPeerInfo, save_peers}

-- types.PeerInfo
pub record PeerInfo : Type 0 where
  pub id : Bytes
  pub name : Bytes
  pub device_type : Bytes
  pub last_seen : ℕ

unfoldable pub to_external_peer_info : InternalPeerInfo → PeerInfo
to_external_peer_info p = record {
  id = p.peer_id;
  name = p.name;
  device_type = p.device_type;
  last_seen = p.last_seen;
}

unfoldable pub from_external_peer_info : PeerInfo → InternalPeerInfo
from_external_peer_info p = record {
  peer_id = p.id;
  name = p.name;
  addrs = [];
  groups = [];
  last_seen = p.last_seen;
  capabilities = [];
  version = [];
  device_type = p.device_type;
}

-- sort.Slice, the most recent first; among equals it keeps the order, which sort.Slice need not.
unfoldable pub insert_by_seen : InternalPeerInfo → List InternalPeerInfo → List InternalPeerInfo
insert_by_seen p [] = p ∷ []
insert_by_seen p (q ∷ peers) =
    let rest = insert_by_seen p peers in
    if ltb p.last_seen q.last_seen then q ∷ rest else p ∷ q ∷ peers

unfoldable pub sort_by_seen : List InternalPeerInfo → List InternalPeerInfo
unfolding insert_by_seen
sort_by_seen [] = []
sort_by_seen (p ∷ peers) = insert_by_seen p (sort_by_seen peers)

insert_last :
    (p : InternalPeerInfo) (peers : List InternalPeerInfo)
    → All (λ q. p.last_seen < q.last_seen) peers
    → insert_by_seen p peers ≡ peers ++ p ∷ []
unfolding insert_by_seen
insert_last p [] later = refl
insert_last p (q ∷ peers) later = ground (arith, insert_last p peers later.1)

All-reverse {κ} :
    (P : InternalPeerInfo → Type κ) (xs : List InternalPeerInfo) → All P xs → All P (reverse xs)
All-reverse P [] a = tt
All-reverse P (x ∷ xs) a =
    rw (reverse-cons x xs) (All-snoc P (reverse xs) x (All-reverse P xs a.1) a.0)
  where
    All-snoc :
        (P : InternalPeerInfo → Type κ) (xs : List InternalPeerInfo) (x : InternalPeerInfo)
        → All P xs
        → P x
        → All P (xs ++ x ∷ [])
    All-snoc P [] x a p = (p, tt)
    All-snoc P (y ∷ ys) x a p = (a.0, All-snoc P ys x a.1 p)

-- `clock` is time.Now at each peer of the network, `addrs_of` the host's peerstore.
module _ {M : Type 0} (host : Host M) (addrs_of : Bytes → List M) (clock : ℕ → ℕ) where
  unfoldable pub connected_peer : Dict InternalPeerInfo → ℕ → Bytes → InternalPeerInfo
  connected_peer store i id = elim (lookup id store) [
    | some info ↦ record info { last_seen = clock i }
    | none ↦ record {
      peer_id = host.id_string id;
      name = codes "Peer-" ++ host.short_string id;
      addrs = map host.address_string (addrs_of id);
      groups = [];
      last_seen = clock i;
      capabilities = [];
      version = [];
      device_type = [];
    }
  ]

  unfoldable pub collect_peers : Dict InternalPeerInfo → ℕ → List Bytes → List InternalPeerInfo
  unfolding connected_peer
  collect_peers store i [] = []
  collect_peers store i (id ∷ ids) = connected_peer store i id ∷ collect_peers store (suc i) ids

  unfoldable pub get_connected_peers : Dict InternalPeerInfo → List Bytes → List InternalPeerInfo
  unfolding collect_peers sort_by_seen
  get_connected_peers store ids = sort_by_seen (collect_peers store 0 ids)

  connected_peer-last_seen :
      (store : Dict InternalPeerInfo) (i : ℕ) (id : Bytes)
      → (connected_peer store i id).last_seen ≡ clock i
  unfolding connected_peer
  connected_peer-last_seen store i id = ground (arith)

  module _ (advances : (i j : ℕ) → i < j → clock i < clock j) where
    collect_later :
        (store : Dict InternalPeerInfo) (t i : ℕ) (ids : List Bytes)
        → t < clock i
        → All (λ q. t < q.last_seen) (collect_peers store i ids)
    unfolding collect_peers
    collect_later store t i [] later = tt
    collect_later store t i (id ∷ ids) later = (
      omega (arith, connected_peer-last_seen store i id),
      collect_later store t (suc i) ids (omega (arith, advances i (suc i) (omega arith))),
    )

    sort-collect :
        (store : Dict InternalPeerInfo) (i : ℕ) (ids : List Bytes)
        → sort_by_seen (collect_peers store i ids) ≡ reverse (collect_peers store i ids)
    unfolding collect_peers sort_by_seen
    sort-collect store i [] = refl
    sort-collect store i (id ∷ ids) =
        let p = connected_peer store i id in
        let others = collect_peers store (suc i) ids in
        let soon : p.last_seen < clock (suc i) =
          omega (arith, connected_peer-last_seen store i id, advances i (suc i) (omega arith)) in
        let later =
          All-reverse (λ q. p.last_seen < q.last_seen) others
            (collect_later store p.last_seen (suc i) ids soon) in
        ap (insert_by_seen p) (sort-collect store (suc i) ids)
        ∙ insert_last p (reverse others) later
        ∙ sym (reverse-cons p others)

    -- While the clock advances, the peers come in the order of the network, the last one first: when they
    -- were seen before has no part in it.
    pub get_connected_peers_lem :
        (store : Dict InternalPeerInfo) (ids : List Bytes)
        → get_connected_peers store ids ≡ reverse (collect_peers store 0 ids)
    unfolding get_connected_peers
    get_connected_peers_lem store ids = sort-collect store 0 ids

-- The routine's loop until its context ends: at each tick the peers are saved.
pub record Tick (M X H D : Type 0) : Type 0 where
  pub node : SyncNode M X H
  pub makes_dir : Bool
  pub write : Write D

unfoldable pub save_peers_routine :
    {M X H D : Type 0} → Host M → Services X H D → List (Tick M X H D) → File D → File D
unfolding save_peers
save_peers_routine host services [] file = file
save_peers_routine host services (t ∷ ticks) file =
    save_peers_routine host services ticks
      (save_peers host services t.makes_dir t.write file t.node).0

unfoldable pub format_host_addresses : {M : Type 0} → Host M → List M → List Bytes
format_host_addresses host [] = []
format_host_addresses host (a ∷ addresses) =
    (host.address_string a ++ codes "/p2p/" ++ host.id_string host.host_id)
    ∷ format_host_addresses host addresses

-- `DisconnectPeer`: the peer whose connections are closed; none is the error.
unfoldable pub disconnect_peer : {M : Type 0} → Host M → Bytes → Option Bytes
disconnect_peer host peer_id = host.decode peer_id
