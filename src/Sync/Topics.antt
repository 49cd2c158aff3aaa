-- ===== src/Sync/Topics.antt =====
-- internal/sync/node.go and internal/sync/sync.go: the groups of a node, and the manager's guards.
-- What pubsub answers is an argument of each operation.
use clipman_daemon.Prelude.{
  ◌≡◌, Bool, true, false, not, ◌&&◌, Option, none, some, List, ◌++◌, Bytes, codes, if◌then◌else◌,
  arith, is_some,
}
use clipman_daemon.Prelude.Dict.{
  Dict, lookup, insert, delete, keys, lookup-insert, lookup-delete, lookup-insert_self,
  lookup-delete_self,
}

-- A topic and a subscription are handles of the library; the model keeps the topic's name.
pub record Node : Type 0 where
  pub has_pubsub : Bool
  pub topics : Dict Bytes
  pub subscriptions : Dict Bytes

pub data TopicError : Type 0 where
  no_pubsub join_failed subscribe_failed not_subscribed publish_failed not_started not_implemented :
      TopicError
  start_failed stop_failed : TopicError

unfoldable pub topic_name : Bytes → Bytes
topic_name group = codes "clipman-" ++ group

-- `JoinTopic`, with the answers of Join and Subscribe.
unfoldable pub join_topic : Node → Bytes → Bool → Bool → Node × Option TopicError
unfolding topic_name
join_topic n group joins subscribes =
    if not n.has_pubsub
    then (n, some no_pubsub)
    else if is_some (lookup group n.topics) && is_some (lookup group n.subscriptions)
    then (n, none)
    else if not joins
    then (n, some join_failed)
    else if not subscribes
    then (n, some subscribe_failed)
    else (
      record n {
        topics = insert group (topic_name group) n.topics;
        subscriptions = insert group (topic_name group) n.subscriptions;
      },
      none,
    )

-- `LeaveTopic`; an error of Close is logged.
unfoldable pub leave_topic : Node → Bytes → Node
leave_topic n group =
    if not (is_some (lookup group n.subscriptions))
    then n
    else record n { subscriptions = delete group n.subscriptions; topics = delete group n.topics }

-- `PublishToTopic`, with the answer of Publish.
unfoldable pub publish_to_topic : Node → Bytes → Bool → Option TopicError
publish_to_topic n group publishes =
    if not (is_some (lookup group n.topics))
    then some not_subscribed
    else if not publishes
    then some publish_failed
    else none

pub record Manager : Type 0 where
  pub node : Node
  pub started : Bool
  pub is_cancelled : Bool

-- `Start` and `Stop`, with whether the node's Start and Stop succeed.
unfoldable pub start : Manager → Bool → Manager × Option TopicError
start m node_starts =
    if m.started
    then (m, none)
    else if not node_starts
    then (m, some start_failed)
    else (record m { started = true }, none)

unfoldable pub stop : Manager → Bool → Manager × Option TopicError
stop m node_stops =
    if not m.started
    then (m, none)
    else if not node_stops
    then (m, some stop_failed)
    else (record m { started = false; is_cancelled = true }, none)

unfoldable pub send_content : Manager → Bytes → Option TopicError
send_content m group = if not m.started then some not_started else some not_implemented

unfoldable pub join_group : Manager → Bytes → Bool → Bool → Manager × Option TopicError
unfolding join_topic
join_group m group joins subscribes = if not m.started then (m, some not_started) else (
  record m { node = (join_topic m.node group joins subscribes).0 },
  (join_topic m.node group joins subscribes).1,
)

unfoldable pub leave_group : Manager → Bytes → Manager × Option TopicError
unfolding leave_topic
leave_group m group =
    if not m.started
    then (m, some not_started)
    else (record m { node = leave_topic m.node group }, none)

-- `ListGroups`; none is the error.
unfoldable pub list_groups : Manager → Option (List Bytes)
list_groups m = if not m.started then none else some (keys m.node.topics)

-- A group has a topic exactly if it has a subscription.
abbrev pub IsPaired : Node → Type 0
IsPaired n = (g : Bytes) → is_some (lookup g n.topics) ≡ is_some (lookup g n.subscriptions)

-- Joining and leaving keep topics and subscriptions in step, whatever pubsub answers.
pub join_leave-IsPaired :
    (n : Node) (group : Bytes) (joins subscribes : Bool)
    → IsPaired n
    → IsPaired (join_topic n group joins subscribes).0 × IsPaired (leave_topic n group)
unfolding join_topic leave_topic
join_leave-IsPaired n group joins subscribes paired = (
  λ g. ground (
    arith,
    paired g,
    lookup-insert group g (topic_name group) n.topics,
    lookup-insert group g (topic_name group) n.subscriptions,
  ),
  λ g.
      ground
        (arith, paired g, lookup-delete group g n.topics, lookup-delete group g n.subscriptions),
)

-- In a node whose topics and subscriptions are in step: publishing to a group that was joined without
-- an error fails only if pubsub fails, and once the group is left, always.
pub join_leave_lem :
    (n : Node) (group : Bytes) (joins subscribes publishes : Bool)
    → IsPaired n
    → (join_topic n group joins subscribes).1 ≡ none
    → (publish_to_topic (join_topic n group joins subscribes).0 group publishes
        ≡ (if publishes then none else some publish_failed))
      × (publish_to_topic
            (leave_topic (join_topic n group joins subscribes).0 group)
            group
            publishes
          ≡ some not_subscribed)
unfolding join_topic leave_topic publish_to_topic
join_leave_lem n group joins subscribes publishes paired ok = (
  ground (arith, ok, lookup-insert_self group (topic_name group) n.topics),
  ground (
    arith,
    ok,
    paired group,
    lookup-insert_self group (topic_name group) n.subscriptions,
    lookup-delete_self group n.topics,
    lookup-delete_self group (insert group (topic_name group) n.topics),
  ),
)
