-- ===== src/Cli/Root/Publishing.antt =====
-- internal/cli/root.go: the publisher of the daemon, from the configuration to the sending of an item.
use clipman_daemon.Prelude.{
  ◌≡◌, refl, ap, ◌∙◌, true, false, not, none, some, [], Bytes, bytes_equal, ltb, arith, is_some,
}
use clipman_daemon.Prelude.Dict.{lookup, lookup-insert_self}
use clipman_daemon.Content.{ClipboardContent}
use clipman_daemon.Config.{Config}
use clipman_daemon.Sync.Config.{validate_sync_config}
use clipman_daemon.Sync.Config.Loading.{load_sync_config}
use clipman_daemon.Sync.Manager.{SyncManager, made, new}
use clipman_daemon.Sync.Manager as Manager
use clipman_daemon.Sync.Manager.{pairing_config}
use clipman_daemon.Sync.Node as Node
use clipman_daemon.Sync.Pairing.{new_pairing_manager}
use clipman_daemon.Sync.Node.Making.{node_of, new_node_lem}
use clipman_daemon.Sync.Publisher.{is_connected, publish_content, manager_is_connected}
use clipman_daemon.Sync.Topics.{topic_name, send_content, join_group, join_topic}
use clipman_daemon.Sync.Topics as Topics
use clipman_daemon.Cli.Root.{
  Network, synced, default_group, topics_manager, joined, settings, sync_publisher,
  content_publisher,
}

module _ {M X D : Type 0} (n : Network M X D) where
  -- A started manager with pubsub and no groups joins the default one.
  join_default :
      (t : Topics.Manager)
      → t.started ≡ true
      → t.node.has_pubsub ≡ true
      → t.node.topics ≡ []
      → n.joins ≡ true
      → n.subscribes ≡ true
      → ((join_group t default_group n.joins n.subscribes).1 ≡ none)
        × (lookup default_group (join_group t default_group n.joins n.subscribes).0.node.topics
            ≡ some (topic_name default_group))
  unfolding join_group join_topic lookup
  join_default t runs pubsub no_topics joins subscribes =
      let absent : is_some (lookup default_group t.node.topics) ≡ false =
        ap (λ d. is_some (lookup default_group d)) no_topics in
      (
        ground (arith, runs, pubsub, absent, joins, subscribes),
        simp (runs, pubsub, absent, joins, subscribes)
            (lookup-insert_self default_group (topic_name default_group) t.node.topics),
      )

  joined_lem :
      (m : SyncManager M X)
      → m.started ≡ true
      → m.node.group_node.has_pubsub ≡ true
      → m.node.group_node.topics ≡ []
      → n.joins ≡ true
      → n.subscribes ≡ true
      → (m' : SyncManager M X) × (joined n m ≡ synced m' default_group)
        × (m'.started ≡ true)
        × (lookup default_group m'.node.group_node.topics ≡ some (topic_name default_group))
  unfolding topics_manager joined
  joined_lem m runs pubsub no_topics joins subscribes =
      let r = join_default (topics_manager m) runs pubsub no_topics joins subscribes in
      (
        record m {
          node = record (m.node) {
            group_node = (join_group (topics_manager m) default_group n.joins n.subscribes).0.node;
          };
        },
        simp (joined, r.0),
        runs,
        r.1,
      )

  content_publisher_lem :
      (m : SyncManager M X) (group : Bytes)
      → m.started ≡ true
      → ((content_publisher n (synced m group)).is_connected ≡ ltb 0 n.connections)
        × ((d : ClipboardContent)
            → (content_publisher n (synced m group)).publish d ≡ not (ltb 0 n.connections))
  unfolding content_publisher topics_manager is_connected publish_content manager_is_connected
      send_content
  content_publisher_lem m group runs = (ground (arith, runs), λ d. ground (arith, runs))

  -- The manager that NewNode and New make, and the facts on it once it is started.
  abbrev made_manager : Config → SyncManager M X
  made_manager c =
      let config = load_sync_config (settings n c) in
      record {
        node = node_of n.host tt n.making config;
        pairing =
            new_pairing_manager (pairing_config config (n.host.id_string n.host.host_id) n.address);
        config = config;
        started = false;
      }

  new_made :
      (c : Config)
      → validate_sync_config (load_sync_config (settings n c)) ≡ none
      → n.making.generates ≡ true
      → n.making.makes_host ≡ true
      → new n.host n.making (load_sync_config (settings n c)) n.address ≡ made (made_manager c)
  unfolding load_sync_config bytes_equal new
  new_made c valid generates makes =
      let config = load_sync_config (settings n c) in
      rw (new, new_node_lem n.host tt n.making config valid refl generates makes) refl

  started_lem :
      (c : Config)
      → n.pubsub_made ≡ true
      → let m = Manager.start n.host n.services n.file n.pubsub_made (made_manager c) in
        (m.started ≡ true) × (m.node.group_node.has_pubsub ≡ true) × (m.node.group_node.topics ≡ [])
  unfolding Manager.start Node.start node_of
  started_lem c pubsub = (refl, ground (arith, pubsub), ground (arith, pubsub))

  -- If the configuration passes the check and the network answers, the daemon joins the default group;
  -- its publisher is connected exactly while there are connections, and fails on every item then.
  pub sync_publisher_lem :
      (c : Config)
      → validate_sync_config (load_sync_config (settings n c)) ≡ none
      → n.making.generates ≡ true
      → n.making.makes_host ≡ true
      → n.pubsub_made ≡ true
      → n.joins ≡ true
      → n.subscribes ≡ true
      → (m : SyncManager M X) × (sync_publisher n c ≡ synced m default_group)
        × (lookup default_group m.node.group_node.topics ≡ some (topic_name default_group))
        × ((content_publisher n (sync_publisher n c)).is_connected ≡ ltb 0 n.connections)
        × ((d : ClipboardContent)
            → (content_publisher n (sync_publisher n c)).publish d ≡ not (ltb 0 n.connections))
  unfolding sync_publisher
  sync_publisher_lem c valid generates makes pubsub joins subscribes =
      let s = started_lem c pubsub in
      let (m, joins', runs, there) =
        joined_lem (Manager.start n.host n.services n.file n.pubsub_made (made_manager c)) s.0 s.1
          s.2 joins subscribes in
      let synced' : sync_publisher n c ≡ synced m default_group =
        rw (sync_publisher, new_made c valid generates makes) joins' in
      let published = content_publisher_lem m default_group runs in
      (
        m,
        synced',
        there,
        ap (λ p. (content_publisher n p).is_connected) synced' ∙ published.0,
        λ d. ap (λ p. (content_publisher n p).publish d) synced' ∙ published.1 d,
      )
