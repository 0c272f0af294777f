-- ===== src/Ui.antt =====
-- studio/src/state/ui.ts: the arrangement of the window, and the operations on it.
pub mod Laws
use reticle.Common.{
  ℕ, suc, ◌+◌, min, max, Text, codes, same, contains, filter, get_elem?, List, [], ◌∷◌, ◌++◌, map,
  Option, none, some, Bool, true, false, not, ◌&&◌, ◌==◌, if◌then◌else◌,
}

-- The file of a run: `source` of a tab.
pub record FileSource : Type 0 where
  pub exec_id : Text
  pub path : Text

pub record EditorTab : Type 0 where
  pub id : Text
  pub kind : Text
  pub title : Text
  pub path : Option Text
  pub content : Option Text
  pub subtitle : Option Text
  pub source : Option FileSource

-- A view or a panel tab is known by its name (`ViewId`, `PanelTab` of shared/ipc.ts).
pub record UiStore : Type 0 where
  pub active_view : Text
  pub sidebar_open : Bool
  pub sidebar_width : ℕ
  pub panel_open : Bool
  pub panel_tab : Text
  pub panel_height : ℕ
  pub panel_maximized : Bool
  pub tabs : List EditorTab
  pub active_tab_id : Text
  pub palette_open : Bool
  pub launcher_open : Bool
  pub inspector_open : Bool
  pub review_node_id : Option Text

pub record LayoutSnapshot : Type 0 where
  pub active_view : Text
  pub sidebar_open : Bool
  pub sidebar_width : ℕ
  pub panel_open : Bool
  pub panel_tab : Text
  pub panel_height : ℕ
  pub panel_maximized : Bool
  pub tabs : List EditorTab
  pub active_tab_id : Text
  pub inspector_open : Bool

abbrev pub graph_tab : EditorTab
graph_tab = record {
  id = codes "graph";
  kind = codes "graph";
  title = codes "Node Map";
  path = none;
  content = none;
  subtitle = none;
  source = none;
}

abbrev pub initial : UiStore
initial = record {
  active_view = codes "runs";
  sidebar_open = true;
  sidebar_width = 288;
  panel_open = true;
  panel_tab = codes "activity";
  panel_height = 260;
  panel_maximized = false;
  tabs = graph_tab ∷ [];
  active_tab_id = codes "graph";
  palette_open = false;
  launcher_open = false;
  inspector_open = true;
  review_node_id = none;
}

unfoldable pub set_view : Text → UiStore → UiStore
set_view view s =
    if same s.active_view view && s.sidebar_open
    then record s { sidebar_open = false }
    else record s { active_view = view; sidebar_open = true }

unfoldable pub toggle_sidebar : UiStore → UiStore
toggle_sidebar s = record s { sidebar_open = not s.sidebar_open }

-- A width is a whole number of pixels, which `Math.round` keeps.
unfoldable pub set_sidebar_width : ℕ → UiStore → UiStore
set_sidebar_width width s = record s { sidebar_width = min 560 (max 200 width) }

unfoldable pub toggle_panel : UiStore → UiStore
toggle_panel s = record s { panel_open = not s.panel_open; panel_maximized = false }

unfoldable pub set_panel_tab : Text → UiStore → UiStore
set_panel_tab tab s = record s { panel_tab = tab; panel_open = true }

unfoldable pub set_panel_height : ℕ → UiStore → UiStore
set_panel_height height s = record s { panel_height = min 900 (max 120 height) }

unfoldable pub toggle_panel_maximized : UiStore → UiStore
toggle_panel_maximized s = record s { panel_maximized = not s.panel_maximized; panel_open = true }

abbrev pub tab_ids : List EditorTab → List Text
tab_ids tabs = map (λ t. t.id) tabs

unfoldable pub open_tab : EditorTab → UiStore → UiStore
open_tab tab s = record s {
  tabs = if contains tab.id (tab_ids s.tabs) then s.tabs else s.tabs ++ tab ∷ [];
  active_tab_id = tab.id;
}

-- `tabs.findIndex((t) => t.id === id)`, with -1 as `none`
unfoldable pub tab_index : Text → List EditorTab → Option ℕ
tab_index id [] = none
tab_index id (t ∷ tabs) = elim (tab_index id tabs) [
  | none ↦ if same t.id id then some 0 else none
  | some i ↦ if same t.id id then some 0 else some (suc i)
]

-- `next[index - 1] ?? next[0] ?? GRAPH_TAB`
unfoldable pub neighbour : ℕ → List EditorTab → EditorTab
neighbour index [] = graph_tab
neighbour ℕ.zero (t ∷ tabs) = t
neighbour (suc i) (t ∷ tabs) = elim (get_elem? (t ∷ tabs) i) [ none ↦ t | some u ↦ u ]

abbrev pub or_graph : List EditorTab → List EditorTab
or_graph [] = graph_tab ∷ []
or_graph (t ∷ tabs) = t ∷ tabs

abbrev pub without : Text → List EditorTab → List EditorTab
without id tabs = filter (λ t. not (same t.id id)) tabs

unfoldable pub close_tab : Text → UiStore → UiStore
unfolding neighbour
close_tab id s = if same id graph_tab.id then s else elim (tab_index id s.tabs) [
  | none ↦ s
  | some index ↦ record s {
    tabs = or_graph (without id s.tabs);
    active_tab_id =
        if same s.active_tab_id id
        then (neighbour index (without id s.tabs)).id
        else s.active_tab_id;
  }
]

unfoldable pub set_active_tab : Text → UiStore → UiStore
set_active_tab id s = record s { active_tab_id = id }

unfoldable pub set_palette : Bool → UiStore → UiStore
set_palette shown s = record s { palette_open = shown }

unfoldable pub set_launcher_open : Bool → UiStore → UiStore
set_launcher_open shown s = record s { launcher_open = shown }

unfoldable pub toggle_inspector : UiStore → UiStore
toggle_inspector s = record s { inspector_open = not s.inspector_open }

unfoldable pub set_review_node : Option Text → UiStore → UiStore
set_review_node node_id s = record s { review_node_id = node_id }

unfoldable pub restore_layout : LayoutSnapshot → UiStore → UiStore
restore_layout snapshot s = record s {
  active_view = snapshot.active_view;
  sidebar_open = snapshot.sidebar_open;
  sidebar_width = snapshot.sidebar_width;
  panel_open = snapshot.panel_open;
  panel_tab = snapshot.panel_tab;
  panel_height = snapshot.panel_height;
  panel_maximized = snapshot.panel_maximized;
  tabs = or_graph snapshot.tabs;
  active_tab_id = snapshot.active_tab_id;
  inspector_open = snapshot.inspector_open;
}
