-- ===== src/Cluster/Runs.antt =====
-- The cluster's parts on concrete inputs, and their theorems there.
use dmqtt.Base.{
  Bytes, [], ◌∷◌, ◌≡◌, ◌≢◌, ◌⊎◌, refl, true, false, none, some, codes, ◌==◌, bytes_eq,
  if◌then◌else◌,
}
use dmqtt.Base.Map.{lookup}
use dmqtt.Cluster.Connections
use dmqtt.Cluster.Connections.{
  ConnectionIndex, new_connection_index, ConnBroadcast, lookup_device, handle_conn_broadcast, conn,
  disconn, unknown,
}
use dmqtt.Cluster.Connections.Agreement
use dmqtt.Cluster.Connections.Agreement.{
  connections-IsConsistent, connection_table, late_disconn, new-connections,
}
use dmqtt.Cluster.RemoteSubs.{
  RemoteSubIndex, SubBroadcast, new_remote_sub_index, sub, unsub, handle_sub_broadcast,
}
use dmqtt.Cluster.RemoteSubs.Laws.{qos_of, highest}
use dmqtt.Cluster.Gossip.{
  sub_item, conn_item, invalidates, handle_conn_broadcast-invalidates,
  handle_sub_broadcast-invalidates,
}
use dmqtt.Cluster.Conflict.{SessionMeta, resolve, IsNewer, resolve_both_sides}
use dmqtt.Cluster.Takeover.{
  TakeoverManager, TakeoverRequest, TakeoverResponse, no_reason, local_session_wins, answer,
  disconnect_device, remote_meta, handle_takeover_request, register, receive,
  handle_takeover_response,
}
use dmqtt.Cluster.Takeover.Requests.{handle_takeover_request_cases}
use dmqtt.Cluster.Takeover.Channels.{register-answered}

abbrev node_a : Bytes
node_a = codes "a"

abbrev node_b : Bytes
node_b = codes "b"

abbrev dev : Bytes
dev = codes "dev"

abbrev one_device : ConnectionIndex
one_device = Connections.add new_connection_index dev node_a

connection_table_example :
    (lookup_device (Connections.add one_device dev node_b) dev
      ≡ (if dev == dev then some node_b else lookup_device one_device dev))
    × (lookup_device (Connections.remove one_device dev) dev
        ≡ (if dev == dev then none else lookup_device one_device dev))
    × (lookup_device (Connections.remove_node one_device node_b) dev
        ≡ Agreement.others node_b (lookup_device one_device dev))
connection_table_example =
    connection_table one_device dev node_b dev
      (connections-IsConsistent new_connection_index dev node_a new-connections).0

late_disconn_example :
    lookup_device
      (handle_conn_broadcast
        (handle_conn_broadcast one_device
          (record { kind = conn; node_id = node_b; device_id = dev }))
        (record { kind = disconn; node_id = node_a; device_id = dev }))
      dev
    ≡ none
late_disconn_example = late_disconn one_device dev node_a node_b

abbrev older : SessionMeta
older = record { client_id = dev; epoch = 1; connect_timestamp = 5; node_id = node_a }

abbrev newer : SessionMeta
newer = record { client_id = dev; epoch = 2; connect_timestamp = 3; node_id = node_b }

resolve_both_sides_example :
    ((resolve older newer ≡ true) × (resolve newer older ≡ false))
    ⊎ (((resolve older newer ≡ false) × (resolve newer older ≡ true))
        ⊎ ((older.epoch ≡ newer.epoch)
            × (older.connect_timestamp ≡ newer.connect_timestamp)
            × (resolve older newer ≡ false)
            × (resolve newer older ≡ false)))
resolve_both_sides_example = resolve_both_sides older newer

abbrev holder : TakeoverManager
holder = record {
  self_id = node_a;
  sessions = (dev, older) ∷ [];
  ack_chans = [];
  chans = [];
  next_chan = 0;
}

abbrev request : TakeoverRequest
request = record { client_id = dev; request_node_id = node_b; connect_timestamp = 3; epoch = 2 }

handle_takeover_request_cases_example :
    ((lookup dev holder.sessions ≡ none)
      × (handle_takeover_request holder request ≡ (holder, answer request true no_reason ∷ [])))
    ⊎ (((local : SessionMeta) × (lookup dev holder.sessions ≡ some local)
          × IsNewer (remote_meta request) local
          × ((handle_takeover_request holder request).1
              ≡ disconnect_device dev ∷ answer request true no_reason ∷ [])
          × (lookup node_b (handle_takeover_request holder request).0.sessions
              ≡ (if dev == node_b then none else lookup node_b holder.sessions)))
        ⊎ ((local : SessionMeta) × (lookup dev holder.sessions ≡ some local)
            × ¬ IsNewer (remote_meta request) local
            × (handle_takeover_request holder request
                ≡ (holder, answer request false local_session_wins ∷ []))))
handle_takeover_request_cases_example = handle_takeover_request_cases holder request node_b

abbrev refusal : TakeoverResponse
refusal = record { client_id = dev; success = false; reason = local_session_wins }

register-answered_example :
    (tm' : TakeoverManager) × (handle_takeover_response (register holder dev).0 refusal ≡ some tm')
    × (receive tm' (register holder dev).1 ≡ some false)
    × (handle_takeover_response tm' refusal ≡ some tm')
register-answered_example = register-answered holder refusal refusal refl

abbrev raised : SubBroadcast
raised = record { kind = sub; node_id = node_a; topic_filter = codes "t"; qos = 2 }

abbrev announced : ConnBroadcast
announced = record { kind = conn; node_id = node_a; device_id = dev }

abbrev withdrawn : ConnBroadcast
withdrawn = record { kind = disconn; node_id = node_a; device_id = dev }

is_known : withdrawn.kind ≢ unknown
is_known = λ e. cc

takes_place : invalidates (conn_item withdrawn) (conn_item announced) ≡ true
unfolding invalidates
takes_place = refl

other_type : invalidates (conn_item withdrawn) (sub_item raised) ≡ false
unfolding invalidates
other_type = refl

handle_conn_broadcast-invalidates_example :
    lookup_device
      (handle_conn_broadcast (handle_conn_broadcast new_connection_index announced) withdrawn)
      dev
    ≡ lookup_device (handle_conn_broadcast new_connection_index withdrawn) dev
handle_conn_broadcast-invalidates_example =
    handle_conn_broadcast-invalidates new_connection_index announced withdrawn dev is_known
      takes_place

abbrev subscribed_at_two : RemoteSubIndex
subscribed_at_two = handle_sub_broadcast new_remote_sub_index raised

handle_sub_broadcast-invalidates_example :
    (invalidates
        (sub_item (record { kind = sub; node_id = node_a; topic_filter = codes "t"; qos = 0 }))
        (sub_item (record { kind = unsub; node_id = node_a; topic_filter = codes "t"; qos = 0 }))
      ≡ true)
    × (qos_of
          (handle_sub_broadcast
            (handle_sub_broadcast subscribed_at_two
              (record { kind = unsub; node_id = node_a; topic_filter = codes "t"; qos = 0 }))
            (record { kind = sub; node_id = node_a; topic_filter = codes "t"; qos = 0 }))
          node_a
          (codes "t")
        ≡ some 0)
    × (qos_of
          (handle_sub_broadcast subscribed_at_two
            (record { kind = sub; node_id = node_a; topic_filter = codes "t"; qos = 0 }))
          node_a
          (codes "t")
        ≡ some (highest (qos_of subscribed_at_two node_a (codes "t")) 0))
handle_sub_broadcast-invalidates_example =
    handle_sub_broadcast-invalidates subscribed_at_two node_a (codes "t") 0
