-- ===== src/Cluster/Takeover.antt =====
-- internal/cluster/takeover.go: one node takes a client's session over from another. A call is cut
-- into the parts between which other goroutines can run: what it does under `ackMu`, its wait for
-- the answer, and its deferred clean-up. A channel is a number, and `chans` holds what is in each.
pub mod Requests
pub mod Channels
use dmqtt.Base.{
  ℕ, suc, ◌+◌, Bytes, List, [], ◌∷◌, ◌==◌, bytes_eq, nat_eq, if◌then◌else◌, Option, none, some,
  Bool, true, false, not, ◌||◌, ◌&&◌,
}
use dmqtt.Base.Map.{Map, lookup, insert, erase}
use dmqtt.Cluster.Conflict.{SessionMeta, resolve}

pub record TakeoverRequest : Type 0 where
  pub client_id : Bytes
  pub request_node_id : Bytes
  pub connect_timestamp : ℕ
  pub epoch : ℕ

pub data Reason : Type 0 where
  no_reason local_session_wins : Reason

pub record TakeoverResponse : Type 0 where
  pub client_id : Bytes
  pub success : Bool
  pub reason : Reason

-- A `chan TakeoverResponse` of capacity 1.
pub record Chan : Type 0 where
  pub buffer : Option TakeoverResponse
  pub closed : Bool

pub record TakeoverManager : Type 0 where
  pub self_id : Bytes
  pub sessions : Map Bytes SessionMeta
  pub ack_chans : Map Bytes ℕ
  pub chans : Map ℕ Chan
  pub next_chan : ℕ

-- What a handler asks of the rest of the node.
pub data Effect : Type 0 where
  disconnect_device : Bytes → Effect
  send : Bytes → TakeoverResponse → Effect

unfoldable pub new_takeover_manager : Bytes → TakeoverManager
new_takeover_manager self_id = record {
  self_id = self_id;
  sessions = [];
  ack_chans = [];
  chans = [];
  next_chan = 0;
}

unfoldable pub set_local_session : TakeoverManager → Bytes → SessionMeta → TakeoverManager
set_local_session tm client meta = record tm { sessions = insert client meta tm.sessions }

unfoldable pub remove_local_session : TakeoverManager → Bytes → TakeoverManager
remove_local_session tm client = record tm { sessions = erase client tm.sessions }

abbrev pub remote_meta : TakeoverRequest → SessionMeta
remote_meta req = record {
  client_id = req.client_id;
  epoch = req.epoch;
  connect_timestamp = req.connect_timestamp;
  node_id = req.request_node_id;
}

abbrev pub answer : TakeoverRequest → Bool → Reason → Effect
answer req success reason =
    send req.request_node_id
      (record { client_id = req.client_id; success = success; reason = reason })

-- The effects in the order in which they happen.
unfoldable pub handle_takeover_request :
    TakeoverManager → TakeoverRequest → TakeoverManager × List Effect
handle_takeover_request tm req = elim (lookup req.client_id tm.sessions) [
  | none ↦ (tm, answer req true no_reason ∷ [])
  | some local_meta ↦
      if resolve local_meta (remote_meta req)
      then (
        record tm { sessions = erase req.client_id tm.sessions },
        disconnect_device req.client_id ∷ answer req true no_reason ∷ [],
      )
      else (tm, answer req false local_session_wins ∷ [])
]

abbrev empty_chan : Chan
empty_chan = record { buffer = none; closed = false }

-- `close(ch)`
abbrev close_chan : ℕ → Map ℕ Chan → Map ℕ Chan
close_chan ch chans = elim (lookup ch chans) [
  | none ↦ chans
  | some c ↦ insert ch (record c { closed = true }) chans
]

-- The first part of RequestTakeover: a channel for the client's answer, and the old one is closed.
unfoldable pub register : TakeoverManager → Bytes → TakeoverManager × ℕ
register tm client =
    let ch : ℕ = tm.next_chan in
    let closed_old : Map ℕ Chan = elim (lookup client tm.ack_chans) [
      | none ↦ tm.chans
      | some old ↦ close_chan old tm.chans
    ] in
    (
      record tm {
        ack_chans = insert client ch tm.ack_chans;
        chans = insert ch empty_chan closed_old;
        next_chan = suc ch;
      },
      ch,
    )

-- Its wait: the answer's verdict, success on a closed channel, and `none` while it has to wait. The
-- timeout and a failed send end the wait with success.
unfoldable pub receive : TakeoverManager → ℕ → Option Bool
receive tm ch = elim (lookup ch tm.chans) [
  | none ↦ none
  | some c ↦ elim c.buffer [
    | some resp ↦ some resp.success
    | none ↦ if c.closed then some true else none
  ]
]

-- Its deferred clean-up.
unfoldable pub unregister : TakeoverManager → Bytes → TakeoverManager
unregister tm client = record tm { ack_chans = erase client tm.ack_chans }

-- The first part of HandleTakeoverResponse, under the lock: the channel to answer on.
unfoldable pub find_chan : TakeoverManager → TakeoverResponse → Option ℕ
find_chan tm resp = lookup resp.client_id tm.ack_chans

-- The second part, after the lock: a send that does not block. `none` is Go's panic on a closed
-- channel.
unfoldable pub deliver : TakeoverManager → ℕ → TakeoverResponse → Option TakeoverManager
deliver tm ch resp = elim (lookup ch tm.chans) [
  | none ↦ some tm
  | some c ↦ if c.closed then none else elim c.buffer [
    | some full ↦ some tm
    | none ↦ some (record tm { chans = insert ch (record c { buffer = some resp }) tm.chans })
  ]
]

-- Both parts with nothing between them.
unfoldable pub handle_takeover_response :
    TakeoverManager → TakeoverResponse → Option TakeoverManager
handle_takeover_response tm resp = elim (find_chan tm resp) [
  | none ↦ some tm
  | some ch ↦ deliver tm ch resp
]
