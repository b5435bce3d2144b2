-- ===== src/Lib.antt =====
-- dmqtt, an MQTT broker in Go that runs on one node or as a cluster, with an admin site in Vue.
--
-- A client connects to one node. `internal/codec` reads its packets from the socket;
-- `internal/broker` keeps who subscribes to what, finds the subscribers of a publication, and
-- tracks the messages that wait for an acknowledgement or that a client sends twice. Between
-- nodes `internal/cluster` gossips which node has which device and which filters, takes a session
-- over when a client appears on another node, and moves devices in migrations.
-- `internal/tenant` keeps the topics and the connections of tenants apart, and
-- `internal/circuitbreaker` guards calls that may fail.
--
-- The files:
-- - Base: Booleans, lists, association lists for Go's maps (`Map`), and the nested maps that both
--   indexes use (`Nested`: a map of non-empty maps).
-- - Codec: results of a decoder, where an index out of range is `panic`. Codec/FixedHeader is
--   internal/codec/fixed_header.go and reader.go: `encode`, `decode_fixed_header`, `read_packet`.
--   Values is reading at an offset, Properties properties.go, and Packets the bodies of all
--   packets, of connect.go, publish.go, subscribe.go, unsubscribe.go and disconnect.go.
-- - Broker: Topic is topic_matcher.go, PacketId is packet_id.go, Inflight is inflight.go, Dedup is
--   dedup.go and Subscription is subscription.go of internal/broker, one function for each method.
-- - CircuitBreaker: internal/circuitbreaker/breaker.go.
-- - Cluster: Connections is connections.go with HandleConnBroadcast of gossip_broadcast.go,
--   RemoteSubs is remote_subs.go with HandleSubBroadcast, Gossip is the items of the queue in
--   gossip_broadcast.go, Conflict is conflict.go, Takeover is takeover.go, Migration is
--   migration.go and Executor is migration_executor.go of internal/cluster.
-- - Tenant: tenant.go and manager.go of internal/tenant; Tenant/Topics is interceptor.go.
-- - Http: internal/httpapi/server.go and embed.go. Devices, Migrations and ClusterViews are its
--   handlers, Serve the mux with the key, Hops a request that nodes pass on to each other, and
--   Site the requests of the admin site against the handlers. The broker and the cluster are the
--   records `BrokerApi` and `ClusterApi`; the answers of other nodes are a parameter.
-- - Admin: web/admin/src. Api is the requests of api/. TimeSeries and Polling are the composables,
--   and Timers the browser's intervals. Devices and Search views/Devices.vue, ClusterPage
--   views/Cluster.vue, Stats views/Dashboard.vue, Metrics views/Metrics.vue, and Locales the
--   tables of texts. Views is the templates: DeviceTable, DeviceDrawer, NodeCards, Panels, Notices
--   for messages, charts and the menu, and Frame for layouts/MainLayout.vue and the router. What
--   the URL parsers of the browser and of Go make of a path is the parameter `UrlParsing`.
-- In each, child modules named for what they prove hold the theorems, and Runs the concrete runs.
--
-- State and concurrency. A struct is a record, a method takes it and returns it. What a method does
-- under its lock is one step, and a history is a list of steps. Where Go releases the lock in
-- between, in RequestTakeover and HandleTakeoverResponse, each locked part is a step of its own and
-- the channels live in a store, so that an overlap is a sequence of steps. In the admin site an `await`
-- cuts a function in the same way. The time is an argument.
--
-- Numbers are naturals; where Go's width matters the wrap-around is written out (the 16-bit packet
-- identifier, the bytes of a header). The breaker's threshold, a float64, is a decimal fraction, and
-- its comparison with a quotient is multiplied out, which agrees with the rounded one while the number of
-- requests times the denominator stays below 2 ^ 53. Strings are lists of bytes. A Go map is an association list with one entry for a key;
-- its order is fixed where Go's is not, and no theorem depends on it.
--
-- Loops recurse on their list, on the rounds that are left (the length decoder allows four), or on
-- the accessibility of < (the length encoder, which divides by 128 until nothing is left). The batches
-- of a migration recurse on fuel, one batch for each device, which is enough as every batch has one
-- device at least. The loops over properties and over topic filters recurse on a round for each byte
-- and one more; a loop that runs out of rounds counts as a panic, and the decoders are shown to return.
--
-- Not modelled: sockets, TLS, WebSocket, JSON, the Pebble store, memberlist, metrics and logs, the
-- CEL rule engine and the wiring in cmd; of the admin site its styles and set-up. These are I/O or
-- calls of other libraries. Sessions, the offline queue, retained messages, access rules, rate limits,
-- plugins, the hash ring and the broker's own routing are not modelled either.

pub mod Admin
pub mod Base
pub mod Broker
pub mod CircuitBreaker
pub mod Cluster
pub mod Codec
pub mod Http
pub mod Tenant
