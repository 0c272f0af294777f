-- ===== src/Ui/Laws.antt =====
-- What the operations of studio/src/state/ui.ts keep.
use reticle.Common.{
  ℕ, zero, suc, Text, same, same_iff, same_refl, contains, get_elem?, List, [], ◌∷◌, ◌++◌, none,
  some, true, false, not, ◌&&◌, ◌≡◌, ◌≢◌, refl, ap, ◌∙◌, arith, if◌then◌else◌, Bool-cases,
  Option-cases, inl, inr,
}
use reticle.Projection.Consistency.{AreDistinct, contains-concat, AreDistinct-concat}
use reticle.Ui.{
  EditorTab, UiStore, graph_tab, tab_ids, open_tab, tab_index, neighbour, or_graph, without,
  close_tab,
}

-- The graph's tab is there, no tab twice, and the active tab is one of them.
pub record IsValid (s : UiStore) : Type 0 where
  pub home : contains graph_tab.id (tab_ids s.tabs) ≡ true
  pub distinct : AreDistinct (tab_ids s.tabs)
  pub active : contains s.active_tab_id (tab_ids s.tabs) ≡ true

tab_ids-append : (xs ys : List EditorTab) → tab_ids (xs ++ ys) ≡ tab_ids xs ++ tab_ids ys
tab_ids-append [] ys = refl
tab_ids-append (x ∷ xs) ys = ap (◌∷◌ x.id) (tab_ids-append xs ys)

-- Opening a tab keeps the graph's tab open and every tab listed once, and the opened tab is the
-- active one, which is open.
pub open_tab-IsValid :
    (tab : EditorTab) (s : UiStore)
    → IsValid s
    → IsValid (open_tab tab s) × ((open_tab tab s).active_tab_id ≡ tab.id)
unfolding open_tab
open_tab-IsValid tab s v = elim (Bool-cases (contains tab.id (tab_ids s.tabs))) [
  | inl k ↦ (record { home = rw k v.home; distinct = rw k v.distinct; active = rw k k }, refl)
  | inr k ↦
      let grown = tab_ids-append s.tabs (tab ∷ []) in
      (
        record {
          home = rw (k, grown, contains-concat graph_tab.id tab.id (tab_ids s.tabs), v.home);
          distinct = rw (k, grown) (AreDistinct-concat tab.id (tab_ids s.tabs) v.distinct k);
          active =
              rw (k, grown, contains-concat tab.id tab.id (tab_ids s.tabs), k) (same_refl tab.id);
        },
        refl,
      )
]

-- Of the ids that stay, all but the closed one.
contains-without :
    (id d : Text) (tabs : List EditorTab)
    → contains d (tab_ids (without id tabs)) ≡ (contains d (tab_ids tabs) && not (same d id))
unfolding contains
contains-without id d [] = refl
contains-without id d (t ∷ tabs) =
    ground (arith, contains-without id d tabs, same_iff t.id d, same_iff t.id id, same_iff d id)

AreDistinct-without :
    (id : Text) (tabs : List EditorTab)
    → AreDistinct (tab_ids tabs)
    → AreDistinct (tab_ids (without id tabs))
AreDistinct-without id [] h = tt
AreDistinct-without id (t ∷ tabs) h =
    ground (arith, AreDistinct-without id tabs h.1, contains-without id t.id tabs)

contains-get_elem? :
    (tabs : List EditorTab) (i : ℕ) (t : EditorTab)
    → get_elem? tabs i ≡ some t
    → contains t.id (tab_ids tabs) ≡ true
unfolding contains
contains-get_elem? [] i t h = cc
contains-get_elem? (x ∷ tabs) zero t h = ground (arith, same_refl t.id)
contains-get_elem? (x ∷ tabs) (suc i) t h = ground (arith, contains-get_elem? tabs i t)

neighbour-get_elem? :
    (i : ℕ) (t u : EditorTab) (tabs : List EditorTab)
    → get_elem? (t ∷ tabs) i ≡ some u
    → neighbour (suc i) (t ∷ tabs) ≡ u
unfolding neighbour
neighbour-get_elem? i t u tabs m = rw (m, neighbour)

neighbour-none :
    (i : ℕ) (t : EditorTab) (tabs : List EditorTab)
    → get_elem? (t ∷ tabs) i ≡ none
    → neighbour (suc i) (t ∷ tabs) ≡ t
unfolding neighbour
neighbour-none i t tabs m = rw (m, neighbour)

contains-head : (t : EditorTab) (tabs : List EditorTab) → contains t.id (tab_ids (t ∷ tabs)) ≡ true
unfolding contains
contains-head t tabs = ground (arith, same_refl t.id)

contains-neighbour :
    (i : ℕ) (t : EditorTab) (tabs : List EditorTab)
    → contains (neighbour i (t ∷ tabs)).id (tab_ids (t ∷ tabs)) ≡ true
unfolding neighbour
contains-neighbour zero t tabs = contains-head t tabs
contains-neighbour (suc i) t tabs =
    let known = λ (x : EditorTab). contains x.id (tab_ids (t ∷ tabs)) in
    elim (Option-cases (get_elem? (t ∷ tabs) i)) [
      | inl m ↦ ap known (neighbour-none i t tabs m) ∙ contains-head t tabs
      | inr (u, m) ↦
          ap known (neighbour-get_elem? i t u tabs m) ∙ contains-get_elem? (t ∷ tabs) i u m
    ]

contains-nil : (x : Text) → contains x [] ≢ true
unfolding contains
contains-nil x h = cc

-- The tabs that stay, when one of them is the graph's.
closed-IsValid :
    (s : UiStore) (id : Text) (index : ℕ) (kept : List EditorTab)
    → contains graph_tab.id (tab_ids kept) ≡ true
    → AreDistinct (tab_ids kept)
    → (same s.active_tab_id id ≡ false → contains s.active_tab_id (tab_ids kept) ≡ true)
    → IsValid (record s {
      tabs = or_graph kept;
      active_tab_id =
          if same s.active_tab_id id then (neighbour index kept).id else s.active_tab_id;
    })
closed-IsValid s id index [] home distinct active = absurd (contains-nil graph_tab.id home)
closed-IsValid s id index (t ∷ kept) home distinct active =
    elim (Bool-cases (same s.active_tab_id id)) [
      | inl k ↦ record {
        home = home;
        distinct = distinct;
        active =
            ap
              (λ b.
                contains (if b then (neighbour index (t ∷ kept)).id else s.active_tab_id)
                  (tab_ids (t ∷ kept)))
              k
            ∙ contains-neighbour index t kept;
      }
      | inr k ↦ record {
        home = home;
        distinct = distinct;
        active =
            ap
              (λ b.
                contains (if b then (neighbour index (t ∷ kept)).id else s.active_tab_id)
                  (tab_ids (t ∷ kept)))
              k
            ∙ active k;
      }
    ]

-- Closing a tab keeps the graph's tab open, every tab listed once, and an active tab that is open.
pub close_tab-IsValid : (id : Text) (s : UiStore) → IsValid s → IsValid (close_tab id s)
unfolding close_tab
close_tab-IsValid id s v = elim (Bool-cases (same id graph_tab.id)) [
  | inl k ↦ rw (k, close_tab) v
  | inr k ↦ elim (Option-cases (tab_index id s.tabs)) [
    | inl m ↦ rw (k, close_tab, m) v
    | inr (index, m) ↦
        rw (k, close_tab, m)
          (closed-IsValid s id index (without id s.tabs)
            (contains-without id graph_tab.id s.tabs
              ∙ ground (arith, v.home, same_iff id graph_tab.id, same_iff graph_tab.id id))
            (AreDistinct-without id s.tabs v.distinct)
            (λ other. contains-without id s.active_tab_id s.tabs ∙ rw (v.active, other)))
  ]
]
