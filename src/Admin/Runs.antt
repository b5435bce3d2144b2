-- ===== src/Admin/Runs.antt =====
-- The admin site on concrete inputs.
use dmqtt.Base.{
  ℕ, ◌≡◌, refl, List, [], ◌∷◌, ◌++◌, Bytes, none, some, true, false, codes, nat_eq, bytes_eq,
}
use dmqtt.Base.Map.{lookup}
use dmqtt.Broker.Dedup.{decimal}
use dmqtt.Admin.Timers.{no_timers}
use dmqtt.Admin.TimeSeries as TimeSeries
use dmqtt.Admin.TimeSeries.{pushes, clears}
use dmqtt.Admin.Polling as Polling
use dmqtt.Admin.Polling.{fetched, thrown, use_polling}
use dmqtt.Admin.Polling.Latest.{last_fetched, shown_error, run-use_polling}
use dmqtt.Admin.Devices as Devices
use dmqtt.Admin.Devices.{
  DeviceSummary, DeviceDetail, DevicesPage, setup, unmounted, devices_failed, load_fails, load_ends,
  load_starts, shows, detail_ends,
}
use dmqtt.Admin.Devices.Recovery.{IsPolling, run-setup-IsPolling}
use dmqtt.Admin.Search.{format_protocol}
use dmqtt.Admin.ClusterPage as ClusterPage
use dmqtt.Admin.ClusterPage.{
  mounted, shows_empty, nodes_fail, load_starts as migrations_start, migrations_end,
}
use dmqtt.Admin.Stats.{uptime_shown, show_uptime}

abbrev five_changes : List (TimeSeries.Change ℕ)
five_changes = pushes 1 ∷ clears ∷ pushes 2 ∷ pushes 3 ∷ pushes 4 ∷ []

window_of_two : TimeSeries.run 2 [] five_changes ≡ 3 ∷ 4 ∷ []
unfolding TimeSeries.run TimeSeries.push TimeSeries.slice TimeSeries.slice_start TimeSeries.last
    TimeSeries.clear
window_of_two = refl

abbrev failure : Polling.Outcome ℕ
failure = thrown (some [])

abbrev polled : List (Polling.Outcome ℕ)
polled = fetched 7 ∷ []

run-use_polling_example :
    ((Polling.run use_polling (polled ++ (failure ∷ []))).data_value
      ≡ last_fetched none (polled ++ (failure ∷ [])))
    × ((Polling.run use_polling (polled ++ (failure ∷ []))).error ≡ shown_error failure)
    × ((Polling.run use_polling (polled ++ (failure ∷ []))).loading ≡ false)
run-use_polling_example = run-use_polling polled failure

abbrev sensor : DeviceSummary
sensor = record {
  client_id = codes "Sensor";
  username = [];
  remote_addr = [];
  protocol_version = 5;
  connected_at = [];
  keep_alive = 60;
  subscriptions = some (codes "a/+" ∷ []);
  node_id = some (codes "n1");
}

abbrev outage : List Devices.Event
outage =
    load_fails
    ∷ load_starts
    ∷ load_fails
    ∷ load_ends (record { devices = some (sensor ∷ []); total = 1; self = codes "n1" })
    ∷ []

run-setup-IsPolling_example :
    IsPolling (Devices.run (setup no_timers) outage)
    × ((t : ℕ) → lookup t (unmounted (Devices.run (setup no_timers) outage)).timers.active ≡ none)
run-setup-IsPolling_example = run-setup-IsPolling outage

abbrev detail_of : DeviceSummary → DeviceDetail
detail_of d = record { summary = d; connected = true; session = none }

abbrev other : DeviceSummary
other = record sensor { client_id = codes "Lamp" }

abbrev clicks : List Devices.Event
clicks =
    shows (codes "Sensor")
    ∷ shows (codes "Lamp")
    ∷ detail_ends (detail_of other)
    ∷ detail_ends (detail_of sensor)
    ∷ []

fresh_errors : (setup no_timers).consecutive_errors ≡ 0
unfolding setup
fresh_errors = refl

abbrev same_case : Bytes → Bytes
same_case s = s

two_protocols : (format_protocol 4 ≡ codes "v3.1.1") × (format_protocol 12 ≡ codes "v12")
unfolding format_protocol lookup decimal
two_protocols = (refl, refl)

abbrev standalone : List ClusterPage.Event
standalone = nodes_fail ∷ migrations_end none ∷ migrations_start ∷ []

uptime_text : show_uptime (uptime_shown 7325) ≡ codes "2h 2m"
unfolding show_uptime uptime_shown decimal
uptime_text = refl
