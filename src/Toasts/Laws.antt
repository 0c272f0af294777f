-- ===== src/Toasts/Laws.antt =====
-- What studio/src/state/toasts.ts keeps: few toasts, each id once, and the one just pushed.
use reticle.Common.{
  ℕ, zero, suc, ◌-◌, ◌≤◌, Text, same, same_iff, same_sym, contains, length, length-append, ltb,
  length-drop, length-filter-le, drop, take_last, filter, find, List, [], ◌∷◌, ◌++◌, true, false,
  not, Option, none, some, ◌≡◌, ◌||◌, if◌then◌else◌, refl, ap, ◌∙◌, arith, Bool-cases, inl, inr,
}
use reticle.Projection.Consistency.{AreDistinct, AreDistinct-concat}
use reticle.Toasts.{Toast, max_toasts, ids, replace, push, dismiss}

pub record IsValid (toasts : List Toast) : Type 0 where
  pub few : length toasts ≤ max_toasts
  pub distinct : AreDistinct (ids toasts)

length-replace :
    (toast : Toast) (toasts : List Toast) → length (replace toast toasts) ≡ length toasts
unfolding replace
length-replace toast [] = refl
length-replace toast (t ∷ toasts) = ground (arith, length-replace toast toasts)

ids-replace : (toast : Toast) (toasts : List Toast) → ids (replace toast toasts) ≡ ids toasts
unfolding replace
ids-replace toast [] = refl
ids-replace toast (t ∷ toasts) = ground (arith, ids-replace toast toasts, same_iff t.id toast.id)

ids-append : (xs ys : List Toast) → ids (xs ++ ys) ≡ ids xs ++ ids ys
ids-append [] ys = refl
ids-append (x ∷ xs) ys = ap (◌∷◌ x.id) (ids-append xs ys)

AreDistinct-drop :
    (n : ℕ) (toasts : List Toast) → AreDistinct (ids toasts) → AreDistinct (ids (drop n toasts))
AreDistinct-drop zero toasts h = h
AreDistinct-drop (suc n) [] h = h
AreDistinct-drop (suc n) (t ∷ toasts) h = AreDistinct-drop n toasts h.1

drop-concat :
    (n : ℕ) (toasts : List Toast) (toast : Toast)
    → n ≤ length toasts
    → drop n (toasts ++ toast ∷ []) ≡ drop n toasts ++ toast ∷ []
drop-concat zero toasts toast h = refl
drop-concat (suc n) [] toast h = absurd (omega arith)
drop-concat (suc n) (t ∷ toasts) toast h = drop-concat n toasts toast (omega arith)

contains-filter :
    (id d : Text) (toasts : List Toast)
    → contains d (ids toasts) ≡ false
    → contains d (ids (filter (λ t. not (same t.id id)) toasts)) ≡ false
unfolding contains
contains-filter id d [] h = refl
contains-filter id d (t ∷ toasts) h = ground (arith, contains-filter id d toasts)

add-IsValid :
    (toast : Toast) (toasts : List Toast)
    → AreDistinct (ids toasts)
    → contains toast.id (ids toasts) ≡ false
    → IsValid (take_last max_toasts (toasts ++ toast ∷ []))
add-IsValid toast toasts d k = record {
  few = omega (
    arith,
    length-append toasts (toast ∷ []),
    length-drop (length (toasts ++ toast ∷ []) - max_toasts) (toasts ++ toast ∷ []),
  );
  distinct =
      AreDistinct-drop _ (toasts ++ toast ∷ [])
        (rw (ids-append toasts (toast ∷ [])) (AreDistinct-concat toast.id (ids toasts) d k));
}

-- The toast that is shown under an id.
abbrev pub shown : Text → List Toast → Option Toast
shown id toasts = find (λ t. same t.id id) toasts

-- What a push of an id keeps: all toasts where the id is shown or there is room, else all but the
-- oldest.
abbrev pub kept : Text → List Toast → List Toast
kept id toasts =
    if contains id (ids toasts) || ltb (length toasts) max_toasts then toasts else drop 1 toasts

shown-replace :
    (k : Text) (toast : Toast) (toasts : List Toast)
    → contains toast.id (ids toasts) ≡ true
    → shown k (replace toast toasts) ≡ (if same toast.id k then some toast else shown k toasts)
unfolding replace contains
shown-replace k toast [] h = cc
shown-replace k toast (t ∷ toasts) h = ground (
  arith,
  shown-replace k toast toasts,
  same_iff t.id toast.id,
  same_iff t.id k,
  same_iff toast.id k,
  same_sym toast.id t.id,
)

shown-concat :
    (k : Text) (toast : Toast) (toasts : List Toast)
    → contains toast.id (ids toasts) ≡ false
    → shown k (toasts ++ toast ∷ []) ≡ (if same toast.id k then some toast else shown k toasts)
unfolding contains
shown-concat k toast [] h = refl
shown-concat k toast (t ∷ toasts) h = ground (
  arith,
  shown-concat k toast toasts,
  same_iff t.id k,
  same_iff toast.id k,
  same_iff toast.id t.id,
  same_sym toast.id t.id,
)

contains-drop :
    (id : Text) (toasts : List Toast)
    → contains id (ids toasts) ≡ false
    → contains id (ids (drop 1 toasts)) ≡ false
unfolding contains
contains-drop id [] h = h
contains-drop id (t ∷ toasts) h = ground arith

-- What an added toast leaves of the others.
take_last-concat :
    (toast : Toast) (toasts : List Toast)
    → length toasts ≤ max_toasts
    → contains toast.id (ids toasts) ≡ false
    → take_last max_toasts (toasts ++ toast ∷ []) ≡ kept toast.id toasts ++ toast ∷ []
take_last-concat toast toasts few h = elim (Bool-cases (ltb (length toasts) max_toasts)) [
  | inl k ↦
      let n : length (toasts ++ toast ∷ []) - max_toasts ≡ 0 =
        ground (arith, length-append toasts (toast ∷ [])) in
      rw (h, k, n) refl
  | inr k ↦
      let n : length (toasts ++ toast ∷ []) - max_toasts ≡ 1 =
        ground (arith, length-append toasts (toast ∷ [])) in
      rw (h, k, n) (drop-concat 1 toasts toast (ground arith))
]

shown-add :
    (k : Text) (toast : Toast) (toasts : List Toast)
    → length toasts ≤ max_toasts
    → contains toast.id (ids toasts) ≡ false
    → shown k (take_last max_toasts (toasts ++ toast ∷ []))
      ≡ (if same toast.id k then some toast else shown k (kept toast.id toasts))
shown-add k toast toasts few h =
    ap (shown k) (take_last-concat toast toasts few h)
    ∙ shown-concat k toast (kept toast.id toasts) (ground (arith, contains-drop toast.id toasts h))

-- A push keeps at most four toasts with ids apart, and shows the pushed toast under its id. Under every
-- other id it shows what was shown, but for the oldest toast where four others were shown.
pub push-IsValid :
    (toast : Toast) (toasts : List Toast)
    → IsValid toasts
    → IsValid (push toast toasts)
      × ((k : Text)
          → shown k (push toast toasts)
            ≡ (if same toast.id k then some toast else shown k (kept toast.id toasts)))
unfolding push
push-IsValid toast toasts v = elim (Bool-cases (contains toast.id (ids toasts))) [
  | inl c ↦ rw c (
    record {
      few = omega (arith, length-replace toast toasts, v.few);
      distinct = rw (ids-replace toast toasts) v.distinct;
    },
    λ k. shown-replace k toast toasts c,
  )
  | inr c ↦
      let added : (k : Text)
          → shown k (take_last max_toasts (toasts ++ toast ∷ []))
            ≡ (if same toast.id k then some toast else shown k (kept toast.id toasts)) =
        λ k. shown-add k toast toasts v.few c in
      rw c (add-IsValid toast toasts v.distinct c, λ k. rw c at (added k))
]

AreDistinct-filter :
    (id : Text) (toasts : List Toast)
    → AreDistinct (ids toasts)
    → AreDistinct (ids (filter (λ t. not (same t.id id)) toasts))
AreDistinct-filter id [] h = tt
AreDistinct-filter id (t ∷ toasts) h =
    ground (arith, AreDistinct-filter id toasts h.1, contains-filter id t.id toasts h.0)

shown-dismiss :
    (id k : Text) (toasts : List Toast)
    → shown k (dismiss id toasts) ≡ (if same id k then none else shown k toasts)
unfolding dismiss
shown-dismiss id k [] = ground arith
shown-dismiss id k (t ∷ toasts) =
    ground (arith, shown-dismiss id k toasts, same_iff t.id id, same_iff t.id k, same_iff id k)

-- A dismissal keeps at most four toasts with ids apart. It shows nothing under the dismissed id, and
-- under every other id what was shown.
pub dismiss-IsValid :
    (id : Text) (toasts : List Toast)
    → IsValid toasts
    → IsValid (dismiss id toasts)
      × ((k : Text) → shown k (dismiss id toasts) ≡ (if same id k then none else shown k toasts))
unfolding dismiss
dismiss-IsValid id toasts v = (
  record {
    few = omega (arith, length-filter-le (λ (t : Toast). not (same t.id id)) toasts, v.few);
    distinct = AreDistinct-filter id toasts v.distinct;
  },
  λ k. shown-dismiss id k toasts,
)
