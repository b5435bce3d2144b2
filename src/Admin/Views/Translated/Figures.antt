-- ===== src/Admin/Views/Translated/Figures.antt =====
-- The texts of the pages with figures and of the frame, in both languages.
use dmqtt.Base.{ℕ, refl, Bytes, List, [], ◌∷◌, Option, none, some, bytes_eq}
use dmqtt.Base.Map.{lookup}
use dmqtt.Admin.Locales.{message}
use dmqtt.Admin.Stats.{ClusterNodeStats, Dashboard, Label, online_devices, stat_cards}
use dmqtt.Admin.Metrics.{MetricsPage}
use dmqtt.Admin.Views.{has_text, all_have_text}
use dmqtt.Admin.Views.Panels.{
  card_items, overview_heads, overview_row, overview_rows, node_overview, trend_heads, error_alert,
  dashboard_view, metrics_cards, metrics_heads, metrics_view,
}
use dmqtt.Admin.Views.Translated.{
  Language, english, chinese, table_of, IsTranslated, append-IsTranslated, shown_if-IsTranslated,
}

card_items-IsTranslated :
    (lang : Language) (cards : List (Label × ℕ)) → IsTranslated lang (card_items cards)
unfolding IsTranslated all_have_text has_text message lookup table_of
card_items-IsTranslated lang [] = refl
card_items-IsTranslated english ((online_devices, n) ∷ cards) =
    card_items-IsTranslated english cards
card_items-IsTranslated english ((Label.active_subscriptions, n) ∷ cards) =
    card_items-IsTranslated english cards
card_items-IsTranslated english ((Label.retained_messages, n) ∷ cards) =
    card_items-IsTranslated english cards
card_items-IsTranslated english ((Label.cluster_nodes, n) ∷ cards) =
    card_items-IsTranslated english cards
card_items-IsTranslated chinese ((online_devices, n) ∷ cards) =
    card_items-IsTranslated chinese cards
card_items-IsTranslated chinese ((Label.active_subscriptions, n) ∷ cards) =
    card_items-IsTranslated chinese cards
card_items-IsTranslated chinese ((Label.retained_messages, n) ∷ cards) =
    card_items-IsTranslated chinese cards
card_items-IsTranslated chinese ((Label.cluster_nodes, n) ∷ cards) =
    card_items-IsTranslated chinese cards

overview_heads-IsTranslated : (lang : Language) → IsTranslated lang overview_heads
unfolding IsTranslated all_have_text has_text message lookup table_of overview_heads
overview_heads-IsTranslated english = refl
overview_heads-IsTranslated chinese = refl

overview_rows-IsTranslated :
    (lang : Language) (self_node_id : Bytes) (rows : List ClusterNodeStats)
    → IsTranslated lang (overview_rows self_node_id rows)
unfolding IsTranslated all_have_text has_text overview_row
overview_rows-IsTranslated lang self_node_id [] = refl
overview_rows-IsTranslated lang self_node_id (row ∷ rows) =
    overview_rows-IsTranslated lang self_node_id rows

trend_heads-IsTranslated : (lang : Language) → IsTranslated lang trend_heads
unfolding IsTranslated all_have_text has_text message lookup table_of trend_heads
trend_heads-IsTranslated english = refl
trend_heads-IsTranslated chinese = refl

error_alert-IsTranslated :
    (lang : Language) (error : Option Bytes) → IsTranslated lang (error_alert error)
unfolding IsTranslated all_have_text has_text
error_alert-IsTranslated lang none = refl
error_alert-IsTranslated lang (some error) = refl

metrics_cards-IsTranslated :
    (lang : Language) (fixed_pause : ℕ → Bytes) (page : MetricsPage)
    → IsTranslated lang (metrics_cards fixed_pause page)
unfolding IsTranslated all_have_text has_text message lookup table_of metrics_cards
metrics_cards-IsTranslated english fixed_pause page = refl
metrics_cards-IsTranslated chinese fixed_pause page = refl

metrics_heads-IsTranslated : (lang : Language) → IsTranslated lang metrics_heads
unfolding IsTranslated all_have_text has_text message lookup table_of metrics_heads
metrics_heads-IsTranslated english = refl
metrics_heads-IsTranslated chinese = refl

-- In both languages every text that the dashboard and the page of metrics show, whatever their state,
-- stands in the table without names to fill in.
pub figures-IsTranslated :
    (lang : Language) (page : Dashboard) (error : Option Bytes) (fixed_pause : ℕ → Bytes)
    (metrics_page : MetricsPage) (metrics_error : Option Bytes)
    → IsTranslated lang (dashboard_view page error)
      × IsTranslated lang (metrics_view fixed_pause metrics_page metrics_error)
unfolding dashboard_view metrics_view node_overview
figures-IsTranslated lang page error fixed_pause metrics_page metrics_error = (
  append-IsTranslated lang (card_items (stat_cards page)) _
      (card_items-IsTranslated lang (stat_cards page))
      (append-IsTranslated lang (node_overview page) _
        (shown_if-IsTranslated lang _ _ (
          append-IsTranslated lang overview_heads _ (overview_heads-IsTranslated lang)
            (overview_rows-IsTranslated lang page.self_node_id page.cluster_nodes)))
        (append-IsTranslated lang trend_heads _ (trend_heads-IsTranslated lang)
          (error_alert-IsTranslated lang error))),
  append-IsTranslated lang (metrics_cards fixed_pause metrics_page) _
      (metrics_cards-IsTranslated lang fixed_pause metrics_page)
      (append-IsTranslated lang metrics_heads _ (metrics_heads-IsTranslated lang)
        (error_alert-IsTranslated lang metrics_error)),
)
