-- ===== src/Tests/Window.antt =====
-- The theorems on the state of the window and its texts at concrete inputs, and runs.
use reticle.Common.{
  Text, List, if◌then◌else◌, codes, same, contains, [], ◌∷◌, none, some, false, ◌≡◌, refl, arith,
}
use reticle.Projection.{create_projection}
use reticle.Studio.{StudioStore, to_ticks, on_snapshot}
use reticle.Studio.Laws.{Message, push, choose_run, pushed, newest, update_all, update_all-newest}
use reticle.Toasts
use reticle.Toasts.{Toast}
use reticle.Ui.{EditorTab, initial, open_tab, close_tab}
use reticle.Ui.Laws.{IsValid, open_tab-IsValid, close_tab-IsValid}
use reticle.Tests.{before_end, started, waits}

abbrev file_tab : EditorTab
file_tab = record {
  id = codes "f1";
  kind = codes "file";
  title = codes "main.ts";
  path = some (codes "/src/main.ts");
  content = none;
  subtitle = none;
  source = none;
}

initial-IsValid : IsValid initial
unfolding contains same
initial-IsValid = record { home = refl; distinct = (refl, tt); active = refl }

open_tab-IsValid_example :
    IsValid (open_tab file_tab initial) × ((open_tab file_tab initial).active_tab_id ≡ codes "f1")
open_tab-IsValid_example = open_tab-IsValid file_tab initial initial-IsValid

close_tab-IsValid_example : IsValid (close_tab (codes "f1") (open_tab file_tab initial))
close_tab-IsValid_example =
    close_tab-IsValid (codes "f1") (open_tab file_tab initial) open_tab-IsValid_example.0

abbrev toast : Toast
toast = record {
  id = codes "run:e1";
  tone = Toasts.ToastTone.success;
  title = codes "Run finished";
  detail = none;
  actions = [];
}

no_toasts-IsValid : Toasts.Laws.IsValid []
no_toasts-IsValid = record { few = omega arith; distinct = tt }

push-IsValid_example :
    Toasts.Laws.IsValid (Toasts.push toast [])
    × ((k : Text)
        → Toasts.Laws.shown k (Toasts.push toast []) ≡ (
            if same toast.id k
            then some toast
            else Toasts.Laws.shown k (Toasts.Laws.kept toast.id [])))
push-IsValid_example = Toasts.Laws.push-IsValid toast [] no_toasts-IsValid

one_toast-IsValid : Toasts.Laws.IsValid (toast ∷ [])
unfolding contains
one_toast-IsValid = record { few = omega arith; distinct = (refl, tt) }

dismiss-IsValid_example :
    Toasts.Laws.IsValid (Toasts.dismiss toast.id (toast ∷ []))
    × ((k : Text)
        → Toasts.Laws.shown k (Toasts.dismiss toast.id (toast ∷ []))
          ≡ (if same toast.id k then none else Toasts.Laws.shown k (toast ∷ [])))
dismiss-IsValid_example = Toasts.Laws.dismiss-IsValid toast.id (toast ∷ []) one_toast-IsValid

abbrev opened : StudioStore
opened = record {
  projection = create_projection;
  timeline = [];
  logs = [];
  logs_truncated = false;
  system_prefers_light = false;
  selected_exec_id = none;
  selected_node_id = none;
  scrub_event_id = none;
}

abbrev later : List Message
later = choose_run (some (codes "e1")) ∷ push before_end waits ∷ []

update_all-newest_example :
    (update_all later (on_snapshot before_end started opened)).timeline
    ≡ newest (to_ticks started) (to_ticks (pushed later))
update_all-newest_example = update_all-newest later before_end started opened
