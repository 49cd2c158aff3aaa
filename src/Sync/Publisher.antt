-- ===== src/Sync/Publisher.antt =====
-- internal/clipboard/sync_publisher.go, and the manager's IsConnected in internal/sync/sync.go.
use clipman_daemon.Prelude.{
  ℕ, ◌≡◌, refl, Bool, false, not, Option, none, some, Bytes, ltb, if◌then◌else◌, arith,
}
use clipman_daemon.Sync.Topics.{Manager, TopicError, send_content, not_implemented}

-- With the number of the host's connections.
unfoldable pub manager_is_connected : Manager → ℕ → Bool
manager_is_connected m connections = if not m.started then false else ltb 0 connections

pub record SyncPublisher : Type 0 where
  pub sync_manager : Option Manager
  pub group_name : Bytes

unfoldable pub is_connected : SyncPublisher → ℕ → Bool
unfolding manager_is_connected
is_connected p connections = elim p.sync_manager [
  | none ↦ false
  | some m ↦ manager_is_connected m connections
]

-- `PublishContent`; none is no error.
unfoldable pub publish_content : SyncPublisher → ℕ → Option TopicError
unfolding manager_is_connected send_content
publish_content p connections = elim p.sync_manager [
  | none ↦ none
  | some m ↦ if not (manager_is_connected m connections) then none else send_content m p.group_name
]

-- A publisher fails exactly if it is connected, since the sending is not implemented.
publish_content_lem :
    (p : SyncPublisher) (connections : ℕ)
    → publish_content p connections
      ≡ (if is_connected p connections then some not_implemented else none)
unfolding publish_content is_connected manager_is_connected send_content
publish_content_lem p connections = go p.sync_manager p.group_name
  where
    go :
        (m : Option Manager) (g : Bytes)
        → publish_content (record { sync_manager = m; group_name = g }) connections ≡ (
            if is_connected (record { sync_manager = m; group_name = g }) connections
            then some not_implemented
            else none)
    go none g = refl
    go (some m) g = ground (arith)
