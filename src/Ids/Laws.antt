-- ===== src/Ids/Laws.antt =====
-- Round trips of studio/src/shared/ids.ts, and what is not recognised.
use reticle.Common.{
  ℕ, suc, Text, index_of, starts_with, take, drop, length, [], ◌∷◌, ◌++◌, some, ◌≡◌, ◌≢◌, refl, ap,
  All, arith,
}
use reticle.Ids.{task_id_separator, parse_task_id, make_task_id}

-- A text without the separator.
abbrev pub IsPlain : Text → Type 0
IsPlain s = All (λ c. c ≢ b'|') s

index_of-IsPlain :
    (e n : Text)
    → IsPlain e
    → index_of (e ++ (task_id_separator ++ n)) task_id_separator ≡ some (length e)
unfolding index_of starts_with
index_of-IsPlain [] n h = refl
index_of-IsPlain (c ∷ e) n (p, h) = ground (arith, index_of-IsPlain e n h)

take-length : (e t : Text) → take (length e) (e ++ t) ≡ e
take-length [] t = refl
take-length (c ∷ e) t = ap (◌∷◌ c) (take-length e t)

drop-length : (e : Text) (c : ℕ) (t : Text) → drop (suc (length e)) (e ++ c ∷ t) ≡ t
drop-length [] c t = refl
drop-length (x ∷ e) c t = drop-length e c t

-- The halves of a composed task id are what it was composed of, if the execution's id is not empty
-- and has no separator in it. (The node's id may have one.)
pub parse_task_id-make_task_id :
    (e n : Text)
    → e ≢ []
    → IsPlain e
    → parse_task_id (some (make_task_id e n)) ≡ record { exec_id = some e; node_id = some n }
unfolding parse_task_id make_task_id
parse_task_id-make_task_id [] n ne h = absurd (ne refl)
parse_task_id-make_task_id (c ∷ e) n ne h =
    rw (index_of-IsPlain (c ∷ e) n h, parse_task_id) (rw (take-length (c ∷ e), drop-length (c ∷ e)))
