-- ===== src/Admin/Locales/En.antt =====
-- web/admin/src/locales/en.ts: the English texts, by section and key.
use dmqtt.Base.{Bytes, [], ◌∷◌, codes}
use dmqtt.Base.Map.{Map}

abbrev pub en_nav : Map Bytes Bytes
en_nav =
    (codes "dashboard", codes "Dashboard")
    ∷ (codes "devices", codes "Devices")
    ∷ (codes "cluster", codes "Cluster")
    ∷ (codes "metrics", codes "Metrics")
    ∷ []

abbrev pub en_common : Map Bytes Bytes
en_common =
    (codes "node", codes "Node")
    ∷ (codes "search", codes "Search")
    ∷ (codes "refresh", codes "Refresh")
    ∷ (codes "confirm", codes "OK")
    ∷ (codes "cancel", codes "Cancel")
    ∷ (codes "online", codes "Online")
    ∷ (codes "offline", codes "Offline")
    ∷ (codes "none", codes "None")
    ∷ (codes "operations", codes "Actions")
    ∷ (codes "status", codes "Status")
    ∷ (codes "progress", codes "Progress")
    ∷ []

abbrev pub en_dashboard : Map Bytes Bytes
en_dashboard =
    (codes "onlineDevices", codes "Online Devices (Cluster)")
    ∷ (codes "activeSubscriptions", codes "Active Subscriptions (Cluster)")
    ∷ (codes "retainedMessages", codes "Retained Messages")
    ∷ (codes "clusterNodes", codes "Cluster Nodes")
    ∷ (codes "nodeOverview", codes "Node Overview")
    ∷ (codes "connections", codes "Connections")
    ∷ (codes "subscriptions", codes "Subscriptions")
    ∷ (codes "retained", codes "Retained")
    ∷ (codes "connectionsTrend", codes "Connections Trend (Cluster)")
    ∷ (codes "memoryTrend", codes "Memory Usage Trend")
    ∷ (codes "goroutineTrend", codes "Goroutine Trend")
    ∷ (codes "subscriptionsTrend", codes "Subscriptions Trend (Cluster)")
    ∷ (codes "memory", codes "Memory")
    ∷ []

abbrev pub en_devices : Map Bytes Bytes
en_devices =
    (codes "searchPlaceholder", codes "Search Device ID")
    ∷ (codes "deviceId", codes "Device ID")
    ∷ (codes "nodeLocation", codes "Node")
    ∷ (codes "subscribedTopics", codes "Subscribed Topics")
    ∷ (codes "ipAddress", codes "IP Address")
    ∷ (codes "protocolVersion", codes "Protocol")
    ∷ (codes "connectTime", codes "Connected At")
    ∷ (codes "disconnect", codes "Disconnect")
    ∷ (codes "confirmDisconnect", codes "Disconnect this device?")
    ∷ (codes "totalDevices", codes "{count} device(s) total")
    ∷ (codes "deviceDetail", codes "Device Detail: {id}")
    ∷ (codes "username", codes "Username")
    ∷ (codes "keepAlive", codes "KeepAlive")
    ∷ (codes "sessionInfo", codes "Session Info")
    ∷ (codes "subscription", codes "Subscriptions")
    ∷ (codes "disconnected", codes "Disconnected {id}")
    ∷ (codes "disconnectFailed", codes "Disconnect failed")
    ∷ (codes "loadFailed", codes "Failed to load devices, polling rate reduced")
    ∷ (codes "loadDetailFailed", codes "Failed to load detail")
    ∷ (codes "connectionRestored", codes "Device list connection restored")
    ∷ (codes "topic", codes "Topic")
    ∷ []

abbrev pub en_cluster : Map Bytes Bytes
en_cluster =
    (codes "thisNode", codes "This Node")
    ∷ (codes "address", codes "Address")
    ∷ (codes "mqttPort", codes "MQTT Port")
    ∷ (codes "httpPort", codes "HTTP Port")
    ∷ (codes "gossip", codes "Gossip")
    ∷ (codes "openAdmin", codes "Open Admin →")
    ∷ (codes "migrationTasks", codes "Migration Tasks")
    ∷ (codes "id", codes "ID")
    ∷ (codes "device", codes "Device")
    ∷ (codes "sourceNode", codes "Source Node")
    ∷ (codes "targetNode", codes "Target Node")
    ∷ (codes "cancelMigration", codes "Cancel this migration?")
    ∷ (codes "cancelled", codes "Migration cancelled")
    ∷ (codes "cancelFailed", codes "Cancel failed")
    ∷ (codes "loadNodesFailed", codes "Failed to load nodes")
    ∷ (codes "noMigrations", codes "No migration tasks")
    ∷ []

abbrev pub en_metrics : Map Bytes Bytes
en_metrics =
    (codes "uptime", codes "Uptime")
    ∷ (codes "gcPause", codes "GC Total Pause")
    ∷ (codes "memoryAlloc", codes "Memory Alloc")
    ∷ (codes "memorySys", codes "Memory Sys")
    ∷ (codes "goroutineCount", codes "Goroutines")
    ∷ (codes "gcPauseTime", codes "GC Pause Time")
    ∷ []

abbrev pub en : Map Bytes (Map Bytes Bytes)
en =
    (codes "nav", en_nav)
    ∷ (codes "common", en_common)
    ∷ (codes "dashboard", en_dashboard)
    ∷ (codes "devices", en_devices)
    ∷ (codes "cluster", en_cluster)
    ∷ (codes "metrics", en_metrics)
    ∷ []
