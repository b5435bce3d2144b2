-- ===== src/Admin/Locales/Zh.antt =====
-- web/admin/src/locales/zh.ts: the Chinese texts, by section and key.
use dmqtt.Base.{Bytes, [], ◌∷◌, codes}
use dmqtt.Base.Map.{Map}

abbrev pub zh_nav : Map Bytes Bytes
zh_nav =
    (codes "dashboard", codes "仪表盘")
    ∷ (codes "devices", codes "设备管理")
    ∷ (codes "cluster", codes "集群监控")
    ∷ (codes "metrics", codes "系统指标")
    ∷ []

abbrev pub zh_common : Map Bytes Bytes
zh_common =
    (codes "node", codes "节点")
    ∷ (codes "search", codes "搜索")
    ∷ (codes "refresh", codes "刷新")
    ∷ (codes "confirm", codes "确定")
    ∷ (codes "cancel", codes "取消")
    ∷ (codes "online", codes "在线")
    ∷ (codes "offline", codes "离线")
    ∷ (codes "none", codes "无")
    ∷ (codes "operations", codes "操作")
    ∷ (codes "status", codes "状态")
    ∷ (codes "progress", codes "进度")
    ∷ []

abbrev pub zh_dashboard : Map Bytes Bytes
zh_dashboard =
    (codes "onlineDevices", codes "在线设备（集群）")
    ∷ (codes "activeSubscriptions", codes "活跃订阅（集群）")
    ∷ (codes "retainedMessages", codes "保留消息")
    ∷ (codes "clusterNodes", codes "集群节点")
    ∷ (codes "nodeOverview", codes "各节点概况")
    ∷ (codes "connections", codes "连接数")
    ∷ (codes "subscriptions", codes "订阅数")
    ∷ (codes "retained", codes "保留消息")
    ∷ (codes "connectionsTrend", codes "连接数趋势（集群）")
    ∷ (codes "memoryTrend", codes "内存使用趋势")
    ∷ (codes "goroutineTrend", codes "Goroutine 趋势")
    ∷ (codes "subscriptionsTrend", codes "订阅数趋势（集群）")
    ∷ (codes "memory", codes "内存")
    ∷ []

abbrev pub zh_devices : Map Bytes Bytes
zh_devices =
    (codes "searchPlaceholder", codes "搜索设备ID")
    ∷ (codes "deviceId", codes "设备ID")
    ∷ (codes "nodeLocation", codes "所在节点")
    ∷ (codes "subscribedTopics", codes "订阅Topic")
    ∷ (codes "ipAddress", codes "IP地址")
    ∷ (codes "protocolVersion", codes "协议版本")
    ∷ (codes "connectTime", codes "连接时间")
    ∷ (codes "disconnect", codes "断开")
    ∷ (codes "confirmDisconnect", codes "确定要断开此设备？")
    ∷ (codes "totalDevices", codes "共 {count} 个设备")
    ∷ (codes "deviceDetail", codes "设备详情: {id}")
    ∷ (codes "username", codes "用户名")
    ∷ (codes "keepAlive", codes "KeepAlive")
    ∷ (codes "sessionInfo", codes "会话信息")
    ∷ (codes "subscription", codes "订阅")
    ∷ (codes "disconnected", codes "已断开设备 {id}")
    ∷ (codes "disconnectFailed", codes "断开失败")
    ∷ (codes "loadFailed", codes "加载设备列表失败，已自动降低刷新频率")
    ∷ (codes "loadDetailFailed", codes "加载详情失败")
    ∷ (codes "connectionRestored", codes "设备列表连接已恢复")
    ∷ (codes "topic", codes "Topic")
    ∷ []

abbrev pub zh_cluster : Map Bytes Bytes
zh_cluster =
    (codes "thisNode", codes "本节点")
    ∷ (codes "address", codes "地址")
    ∷ (codes "mqttPort", codes "MQTT端口")
    ∷ (codes "httpPort", codes "HTTP端口")
    ∷ (codes "gossip", codes "Gossip")
    ∷ (codes "openAdmin", codes "打开管理界面 →")
    ∷ (codes "migrationTasks", codes "迁移任务")
    ∷ (codes "id", codes "ID")
    ∷ (codes "device", codes "设备")
    ∷ (codes "sourceNode", codes "源节点")
    ∷ (codes "targetNode", codes "目标节点")
    ∷ (codes "cancelMigration", codes "确定取消此迁移？")
    ∷ (codes "cancelled", codes "已取消迁移")
    ∷ (codes "cancelFailed", codes "取消失败")
    ∷ (codes "loadNodesFailed", codes "加载节点失败")
    ∷ (codes "noMigrations", codes "暂无迁移任务")
    ∷ []

abbrev pub zh_metrics : Map Bytes Bytes
zh_metrics =
    (codes "uptime", codes "运行时间")
    ∷ (codes "gcPause", codes "GC 总暂停")
    ∷ (codes "memoryAlloc", codes "内存分配 (Alloc)")
    ∷ (codes "memorySys", codes "内存总量 (Sys)")
    ∷ (codes "goroutineCount", codes "Goroutine 数量")
    ∷ (codes "gcPauseTime", codes "GC 暂停时间")
    ∷ []

abbrev pub zh : Map Bytes (Map Bytes Bytes)
zh =
    (codes "nav", zh_nav)
    ∷ (codes "common", zh_common)
    ∷ (codes "dashboard", zh_dashboard)
    ∷ (codes "devices", zh_devices)
    ∷ (codes "cluster", zh_cluster)
    ∷ (codes "metrics", zh_metrics)
    ∷ []
