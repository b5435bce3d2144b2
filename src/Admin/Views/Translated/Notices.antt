-- ===== src/Admin/Views/Translated/Notices.antt =====
-- The messages, the names of the charts' series and the menu, in both languages.
use dmqtt.Base.{refl, List, map}
use dmqtt.Base.Map.{lookup}
use dmqtt.Admin.Locales.{message}
use dmqtt.Admin.Devices as Devices
use dmqtt.Admin.Devices.{
  connection_restored, load_failed, disconnect_failed, load_detail_failed, disconnected,
}
use dmqtt.Admin.ClusterPage as ClusterPage
use dmqtt.Admin.ClusterPage.{load_nodes_failed, cancelled, cancel_failed}
use dmqtt.Admin.Stats.{Dashboard}
use dmqtt.Admin.Stats.Charts.{
  make_line_option, connections_chart_option, memory_chart_option, goroutine_chart_option,
  subs_chart_option,
}
use dmqtt.Admin.Views.{has_text, all_have_text, flatten}
use dmqtt.Admin.Views.Notices.{devices_notice, cluster_notice, chart_names, menu_view}
use dmqtt.Admin.Views.Translated.{
  Language, english, chinese, table_of, IsTranslated, flatten-IsTranslated,
}

devices_notice-IsTranslated :
    (lang : Language) (m : Devices.Message) → IsTranslated lang (devices_notice m)
unfolding IsTranslated all_have_text has_text message lookup table_of
devices_notice-IsTranslated english connection_restored = refl
devices_notice-IsTranslated english load_failed = refl
devices_notice-IsTranslated english disconnect_failed = refl
devices_notice-IsTranslated english load_detail_failed = refl
devices_notice-IsTranslated english (disconnected id) = refl
devices_notice-IsTranslated chinese connection_restored = refl
devices_notice-IsTranslated chinese load_failed = refl
devices_notice-IsTranslated chinese disconnect_failed = refl
devices_notice-IsTranslated chinese load_detail_failed = refl
devices_notice-IsTranslated chinese (disconnected id) = refl

cluster_notice-IsTranslated :
    (lang : Language) (m : ClusterPage.Message) → IsTranslated lang (cluster_notice m)
unfolding IsTranslated all_have_text has_text message lookup table_of
cluster_notice-IsTranslated english load_nodes_failed = refl
cluster_notice-IsTranslated english cancelled = refl
cluster_notice-IsTranslated english cancel_failed = refl
cluster_notice-IsTranslated chinese load_nodes_failed = refl
cluster_notice-IsTranslated chinese cancelled = refl
cluster_notice-IsTranslated chinese cancel_failed = refl

chart_names-IsTranslated :
    (lang : Language) (page : Dashboard) → IsTranslated lang (chart_names page)
unfolding IsTranslated all_have_text has_text message lookup table_of chart_names make_line_option
    connections_chart_option memory_chart_option goroutine_chart_option subs_chart_option
chart_names-IsTranslated english page = refl
chart_names-IsTranslated chinese page = refl

menu_view-IsTranslated : (lang : Language) → IsTranslated lang menu_view
unfolding IsTranslated all_have_text has_text message lookup table_of menu_view
menu_view-IsTranslated english = refl
menu_view-IsTranslated chinese = refl

-- In both languages every message of the pages, every name of a chart's series and every entry of the
-- menu stands in the table, with just the names in braces that are filled in.
pub notices-IsTranslated :
    (lang : Language) (devices : List Devices.Message) (cluster : List ClusterPage.Message)
    (page : Dashboard)
    → IsTranslated lang (flatten (map devices_notice devices))
      × IsTranslated lang (flatten (map cluster_notice cluster))
      × IsTranslated lang (chart_names page)
      × IsTranslated lang menu_view
notices-IsTranslated lang devices cluster page = (
  flatten-IsTranslated lang devices_notice devices (devices_notice-IsTranslated lang),
  flatten-IsTranslated lang cluster_notice cluster (cluster_notice-IsTranslated lang),
  chart_names-IsTranslated lang page,
  menu_view-IsTranslated lang,
)
