-- ===== src/Toasts.antt =====
-- studio/src/state/toasts.ts: the toasts that are shown, the oldest first.
pub mod Laws
use reticle.Common.{
  ℕ, Text, same, contains, length, take_last, filter, any, List, [], ◌∷◌, ◌++◌, map, Option, none,
  some, Bool, true, false, not, if◌then◌else◌,
}

pub data ToastTone : Type 0 where
  success failure attention : ToastTone

-- An action's callback is not part of the state.
pub record Toast : Type 0 where
  pub id : Text
  pub tone : ToastTone
  pub title : Text
  pub detail : Option Text
  pub actions : List Text

abbrev pub max_toasts : ℕ
max_toasts = 4

abbrev pub ids : List Toast → List Text
ids toasts = map (λ t. t.id) toasts

-- `next[index] = toast`, at the first toast with the id
unfoldable pub replace : Toast → List Toast → List Toast
replace toast [] = []
replace toast (t ∷ toasts) =
    let rest = replace toast toasts in if same t.id toast.id then toast ∷ toasts else t ∷ rest

unfoldable pub push : Toast → List Toast → List Toast
unfolding replace
push toast toasts =
    if contains toast.id (ids toasts)
    then replace toast toasts
    else take_last max_toasts (toasts ++ toast ∷ [])

unfoldable pub dismiss : Text → List Toast → List Toast
dismiss id toasts = filter (λ t. not (same t.id id)) toasts
