-- ===== src/Admin/Views/Translated/Whole.antt =====
-- The texts of the whole site, in both languages.
use dmqtt.Base.{ℕ, Bytes, Option, map}
use dmqtt.Admin.Devices.{DevicesPage}
use dmqtt.Admin.ClusterPage.{ClusterPage}
use dmqtt.Admin.Stats.{Dashboard}
use dmqtt.Admin.Metrics.{MetricsPage}
use dmqtt.Admin.Views.DeviceDrawer.{devices_view}
use dmqtt.Admin.Views.NodeCards.{cluster_view}
use dmqtt.Admin.Views.Panels.{dashboard_view, metrics_view}
use dmqtt.Admin.Views.{flatten}
use dmqtt.Admin.Views.Notices.{devices_notice, cluster_notice, chart_names, menu_view}
use dmqtt.Admin.Views.Frame.{Layout, header}
use dmqtt.Admin.Views.Translated.{Language, IsTranslated}
use dmqtt.Admin.Views.Translated.DevicePage.{devices_view-IsTranslated}
use dmqtt.Admin.Views.Translated.NodePage.{cluster_view-IsTranslated}
use dmqtt.Admin.Views.Translated.Figures.{figures-IsTranslated}
use dmqtt.Admin.Views.Translated.Notices.{notices-IsTranslated}
use dmqtt.Admin.Views.Translated.Header.{header-IsTranslated}

-- In both languages every text that a page or the frame shows by a key, in whatever state, stands in the
-- table of the language, and has just the name in braces that the page fills in, if any: those of the
-- templates and of the header, the messages that the pages pop up, the names of the charts' series, and
-- the menu.
pub views-IsTranslated :
    (lang : Language) (to_lower format_time : Bytes → Bytes) (fixed_pause : ℕ → Bytes)
    (devices : DevicesPage) (cluster : ClusterPage) (dashboard : Dashboard) (metrics : MetricsPage)
    (layout : Layout) (error : Option Bytes) (path locale : Bytes)
    → IsTranslated lang (devices_view to_lower format_time devices)
      × IsTranslated lang (cluster_view cluster)
      × IsTranslated lang (dashboard_view dashboard error)
      × IsTranslated lang (metrics_view fixed_pause metrics error)
      × IsTranslated lang (header layout path locale)
      × IsTranslated lang (flatten (map devices_notice devices.messages))
      × IsTranslated lang (flatten (map cluster_notice cluster.messages))
      × IsTranslated lang (chart_names dashboard)
      × IsTranslated lang menu_view
views-IsTranslated lang to_lower format_time fixed_pause devices cluster dashboard metrics layout
      error path locale =
    let (shown, popped, names, entries) =
      notices-IsTranslated lang devices.messages cluster.messages dashboard in
    let (d, m) = figures-IsTranslated lang dashboard error fixed_pause metrics error in
    (
      devices_view-IsTranslated to_lower format_time lang devices,
      cluster_view-IsTranslated lang cluster,
      d,
      m,
      header-IsTranslated lang layout path locale,
      shown,
      popped,
      names,
      entries,
    )
