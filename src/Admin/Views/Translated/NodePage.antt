-- ===== src/Admin/Views/Translated/NodePage.antt =====
-- The texts of the page of the cluster, in both languages.
use dmqtt.Base.{refl, [], ◌∷◌, inl, inr, Bool-cases, ◌==◌, bytes_eq}
use dmqtt.Base.Map.{lookup}
use dmqtt.Admin.Locales.{message}
use dmqtt.Admin.ClusterPage.{NodeInfo, Migration, ClusterPage, has_admin_button, shows_empty}
use dmqtt.Admin.Views.{flatten, has_text, all_have_text}
use dmqtt.Admin.Views.NodeCards.{
  self_tag, node_card, migration_columns, migration_cells, migration_notice, cluster_view,
}
use dmqtt.Admin.Views.Translated.{
  Language, english, chinese, table_of, IsTranslated, append-IsTranslated, flatten-IsTranslated,
  flatten_rows,
}

self_tag-IsTranslated :
    (lang : Language) (page : ClusterPage) (node : NodeInfo)
    → IsTranslated lang (self_tag page node ∷ [])
unfolding IsTranslated all_have_text has_text message lookup table_of self_tag
self_tag-IsTranslated english page node = elim (Bool-cases (node.id == page.self_id)) [
  | inl e ↦ rw e refl
  | inr e ↦ rw e refl
]
self_tag-IsTranslated chinese page node = elim (Bool-cases (node.id == page.self_id)) [
  | inl e ↦ rw e refl
  | inr e ↦ rw e refl
]

-- The items of a card after the tag.
card_items-IsTranslated :
    (lang : Language) (page : ClusterPage) (node : NodeInfo)
    → IsTranslated lang (self_tag page node ∷ [])
    → IsTranslated lang (node_card page node)
unfolding IsTranslated all_have_text has_text message lookup table_of node_card
card_items-IsTranslated english page node h = elim (Bool-cases (has_admin_button page node)) [
  | inl e ↦ rw e h
  | inr e ↦ rw e h
]
card_items-IsTranslated chinese page node h = elim (Bool-cases (has_admin_button page node)) [
  | inl e ↦ rw e h
  | inr e ↦ rw e h
]

migration_columns-IsTranslated : (lang : Language) → IsTranslated lang migration_columns
unfolding IsTranslated all_have_text has_text message lookup table_of migration_columns
migration_columns-IsTranslated english = refl
migration_columns-IsTranslated chinese = refl

migration_cells-IsTranslated :
    (lang : Language) (m : Migration) → IsTranslated lang (flatten (migration_cells m))
unfolding IsTranslated all_have_text has_text message lookup table_of migration_cells
migration_cells-IsTranslated english m = refl
migration_cells-IsTranslated chinese m = refl

migration_notice-IsTranslated :
    (lang : Language) (page : ClusterPage) → IsTranslated lang (migration_notice page)
unfolding IsTranslated all_have_text has_text message lookup table_of migration_notice
migration_notice-IsTranslated english page = elim (Bool-cases (shows_empty page)) [
  | inl e ↦ rw e refl
  | inr e ↦ rw e refl
]
migration_notice-IsTranslated chinese page = elim (Bool-cases (shows_empty page)) [
  | inl e ↦ rw e refl
  | inr e ↦ rw e refl
]

module _ (lang : Language) (page : ClusterPage) where
  -- In both languages every text that the page of the cluster shows, whatever its state, stands in the
  -- table without names to fill in.
  pub cluster_view-IsTranslated : IsTranslated lang (cluster_view page)
  unfolding cluster_view
  cluster_view-IsTranslated =
      let cards =
        flatten-IsTranslated lang (node_card page) page.nodes
          (λ node. card_items-IsTranslated lang page node (self_tag-IsTranslated lang page node)) in
      let rows =
        flatten_rows lang migration_cells page.migrations (migration_cells-IsTranslated lang) in
      append-IsTranslated lang _ _ cards (
        append-IsTranslated lang migration_columns _ (migration_columns-IsTranslated lang)
          (append-IsTranslated lang _ _ rows (migration_notice-IsTranslated lang page)))
