-- ===== src/Cluster/Takeover/Channels.antt =====
-- How a takeover request and its answer meet, alone and when a second request for the client
-- overlaps the first.
use dmqtt.Base.{
  ℕ, suc, ◌<◌, Bytes, bytes_eq, nat_eq, if◌then◌else◌, none, some, Bool, true, false, ◌≡◌, ◌∙◌,
  refl, arith,
}
use dmqtt.Base.Map.{Map, lookup, insert, erase, lookup-erase, lookup-insert, beq_self}
use dmqtt.Cluster.Takeover.{
  Chan, TakeoverManager, TakeoverResponse, register, receive, unregister, find_chan, deliver,
  handle_takeover_response, empty_chan, close_chan,
}

lookup-insert_self {ℓ} :
    {V : Type ℓ} (ch : ℕ) (v : V) (m : Map ℕ V) → lookup ch (insert ch v m) ≡ some v
lookup-insert_self ch v m = rw (lookup-insert ch ch v m, beq_self ch)

-- The fresh channel is registered and empty.
register_fresh :
    (tm : TakeoverManager) (c : Bytes)
    → (lookup c (register tm c).0.ack_chans ≡ some tm.next_chan)
      × (lookup tm.next_chan (register tm c).0.chans ≡ some empty_chan)
      × ((register tm c).1 ≡ tm.next_chan)
      × ((register tm c).0.next_chan ≡ suc tm.next_chan)
unfolding register
register_fresh tm c = (
  rw (lookup-insert c c tm.next_chan tm.ack_chans, beq_self c),
  lookup-insert_self tm.next_chan empty_chan _,
  refl,
  refl,
)

abbrev filled : TakeoverResponse → Chan
filled resp = record { buffer = some resp; closed = false }

abbrev put_answer : TakeoverManager → ℕ → TakeoverResponse → TakeoverManager
put_answer tm ch resp = record tm { chans = insert ch (filled resp) tm.chans }

deliver_empty :
    (tm : TakeoverManager) (ch : ℕ) (resp : TakeoverResponse)
    → lookup ch tm.chans ≡ some empty_chan
    → deliver tm ch resp ≡ some (put_answer tm ch resp)
unfolding deliver
deliver_empty tm ch resp h = rw (h, deliver)

deliver-filled :
    (tm : TakeoverManager) (ch : ℕ) (resp resp' : TakeoverResponse)
    → lookup ch tm.chans ≡ some (filled resp)
    → deliver tm ch resp' ≡ some tm
unfolding deliver
deliver-filled tm ch resp resp' h = rw (h, deliver)

receive-filled :
    (tm : TakeoverManager) (ch : ℕ) (resp : TakeoverResponse)
    → lookup ch tm.chans ≡ some (filled resp)
    → receive tm ch ≡ some resp.success
unfolding receive
receive-filled tm ch resp h = rw (h, receive)

handle_found :
    (tm : TakeoverManager) (resp : TakeoverResponse) (ch : ℕ)
    → lookup resp.client_id tm.ack_chans ≡ some ch
    → handle_takeover_response tm resp ≡ deliver tm ch resp
unfolding handle_takeover_response find_chan
handle_found tm resp ch h = rw (h, handle_takeover_response)

-- An answer to a request that waits alone reaches it: the handler does not panic, the wait ends with
-- the answer's verdict, and a second answer changes nothing.
pub register-answered :
    (tm : TakeoverManager) (resp again : TakeoverResponse)
    → again.client_id ≡ resp.client_id
    → (tm' : TakeoverManager) × (handle_takeover_response (register tm resp.client_id).0 resp
        ≡ some tm')
      × (receive tm' (register tm resp.client_id).1 ≡ some resp.success)
      × (handle_takeover_response tm' again ≡ some tm')
register-answered tm resp again e =
    let tm1 = (register tm resp.client_id).0 in
    let ch : ℕ = tm.next_chan in
    let (known, empty, name, _) = register_fresh tm resp.client_id in
    let tm2 = put_answer tm1 ch resp in
    let full : lookup ch tm2.chans ≡ some (filled resp) =
      lookup-insert_self ch (filled resp) tm1.chans in
    (
      tm2,
      handle_found tm1 resp ch known ∙ deliver_empty tm1 ch resp empty,
      rw name (receive-filled tm2 ch resp full),
      handle_found tm2 again ch (rw e known) ∙ deliver-filled tm2 ch resp again full,
    )

-- A request for a client with a registered channel closes that channel.
register_closes :
    (tm : TakeoverManager) (c : Bytes) (old : ℕ) (k : Chan)
    → lookup c tm.ack_chans ≡ some old
    → lookup old tm.chans ≡ some k
    → old < tm.next_chan
    → lookup old (register tm c).0.chans ≡ some (record k { closed = true })
unfolding register
register_closes tm c old k known h lt =
    rw (known, register)
      (rw (h, close_chan)
        (ground (
          arith,
          lookup-insert tm.next_chan old empty_chan
              (insert old (record k { closed = true }) tm.chans),
          lookup-insert_self old (record k { closed = true }) tm.chans,
        )))

receive_empty :
    (tm : TakeoverManager) (ch : ℕ) (b : Bool)
    → lookup ch tm.chans ≡ some (record { buffer = none; closed = b })
    → receive tm ch ≡ (if b then some true else none)
unfolding receive
receive_empty tm ch b h = rw (h, receive)

handle_unregistered :
    (tm : TakeoverManager) (c : Bytes) (resp : TakeoverResponse)
    → resp.client_id ≡ c
    → handle_takeover_response (unregister tm c) resp ≡ some (unregister tm c)
unfolding handle_takeover_response find_chan unregister
handle_unregistered tm c resp e =
    let gone : lookup resp.client_id (erase c tm.ack_chans) ≡ none =
      rw e (rw (lookup-erase c c tm.ack_chans, beq_self c)) in
    rw (gone, handle_takeover_response)

-- The state of the first request's channel when a second request for the client has begun.
register_twice :
    (tm : TakeoverManager) (c : Bytes)
    → lookup tm.next_chan (register (register tm c).0 c).0.chans
      ≡ some (record { buffer = none; closed = true })
register_twice tm c =
    let (known, empty, _, next) = register_fresh tm c in
    register_closes (register tm c).0 c tm.next_chan empty_chan known empty (omega (arith, next))

-- A second request for a client closes the channel of the first, which ends with success. Its
-- clean-up then removes the registration of the second: an answer finds no channel and is dropped,
-- and the second request waits on for its timeout, which counts as success.
pub overlapping_unregister :
    (tm : TakeoverManager) (c : Bytes) (resp : TakeoverResponse)
    → resp.client_id ≡ c
    → let tm1 = register tm c in
      let tm2 = register tm1.0 c in
      let tm3 = unregister tm2.0 c in
      (receive tm2.0 tm1.1 ≡ some true)
      × (handle_takeover_response tm3 resp ≡ some tm3)
      × (receive tm3 tm2.1 ≡ none)
unfolding unregister register
overlapping_unregister tm c resp e =
    let tm1 = register tm c in
    let tm2 = register tm1.0 c in
    let (_, empty, name, _) = register_fresh tm1.0 c in
    (
      receive_empty tm2.0 tm1.1 true (register_twice tm c),
      handle_unregistered tm2.0 c resp e,
      rw name (receive_empty (unregister tm2.0 c) tm1.0.next_chan false empty),
    )

-- An answer that looks its channel up before a second request for the client begins, and sends after
-- that, sends on a closed channel: Go panics.
pub overlapping_deliver :
    (tm : TakeoverManager) (c : Bytes) (resp : TakeoverResponse)
    → resp.client_id ≡ c
    → (find_chan (register tm c).0 resp ≡ some tm.next_chan)
      × (deliver (register (register tm c).0 c).0 tm.next_chan resp ≡ none)
unfolding find_chan deliver
overlapping_deliver tm c resp e = (rw e (register_fresh tm c).0, rw (register_twice tm c, deliver))
