-- ===== src/Process/Laws.antt =====
-- Lines that arrive in chunks (Process): what is split of the last line again, with more behind it.
use reticle.Common.{
  ℕ, ◌==◌, Text, List, [], ◌∷◌, ◌++◌, Bool, true, false, ◌&&◌, ◌≡◌, refl, sym, ap, subst, ◌∙◌,
  arith, Bool-cases, inl, inr,
}
use reticle.Common.Lines.{split_lines, put_first, starts_line_feed}
use reticle.Process.{last_line, but_last}

-- Where a text begins with a line feed, a carriage return before one, or another code unit.
abbrev breaks : ℕ → Text → Bool
breaks a s = a == 13 && starts_line_feed s

split_lines_feed : (a : ℕ) (s : Text) → (a == 10) ≡ true → split_lines (a ∷ s) ≡ [] ∷ split_lines s
unfolding split_lines
split_lines_feed a s e = rw e refl

split_lines_return :
    (a : ℕ) (s : Text) → (a == 10) ≡ false → breaks a s ≡ true → split_lines (a ∷ s) ≡ split_lines s
unfolding split_lines
split_lines_return a s e b = rw (e, b) refl

split_lines_unit :
    (a : ℕ) (s : Text)
    → (a == 10) ≡ false
    → breaks a s ≡ false
    → split_lines (a ∷ s) ≡ put_first a (split_lines s)
unfolding split_lines
split_lines_unit a s e b = rw (e, b) refl

IsFilled : List Text → Type 0
IsFilled ls = (t : Text) × (ts : List Text) × (ls ≡ t ∷ ts)

put_first-IsFilled : (a : ℕ) (ls : List Text) → IsFilled (put_first a ls)
unfolding IsFilled
put_first-IsFilled a [] = (a ∷ [], [], refl)
put_first-IsFilled a (l ∷ ls) = (a ∷ l, ls, refl)

split_lines-IsFilled : (s : Text) → IsFilled (split_lines s)
unfolding split_lines IsFilled
split_lines-IsFilled [] = ([], [], refl)
split_lines-IsFilled (a ∷ s) = elim (Bool-cases (a == 10)) [
  | inl e ↦ ([], split_lines s, split_lines_feed a s e)
  | inr e ↦ elim (Bool-cases (breaks a s)) [
    | inl b ↦ subst IsFilled (sym (split_lines_return a s e b)) (split_lines-IsFilled s)
    | inr b ↦ subst IsFilled (sym (split_lines_unit a s e b)) (put_first-IsFilled a (split_lines s))
  ]
]

not_one : (s t : Text) → starts_line_feed s ≡ true → split_lines s ≡ t ∷ [] → ⊥
unfolding IsFilled
not_one [] t b h = cc
not_one (a ∷ s) t b h =
    let (u, us, q) = split_lines-IsFilled s in ground (arith, split_lines_feed a s b)

-- A text that is split into one line is that line.
split_lines_one : (s t : Text) → split_lines s ≡ t ∷ [] → s ≡ t
unfolding split_lines IsFilled
split_lines_one [] t h = ground arith
split_lines_one (a ∷ s) t h = elim (Bool-cases (a == 10)) [
  | inl e ↦ absurd (not_one (a ∷ s) t e h)
  | inr e ↦ elim (Bool-cases (breaks a s)) [
    | inl b ↦ absurd (not_one s t (ground arith) (sym (split_lines_return a s e b) ∙ h))
    | inr b ↦
        let (u, us, q) = split_lines-IsFilled s in
        ground (arith, split_lines_unit a s e b, split_lines_one s u)
  ]
]

abbrev Continues : Text → Text → List Text → Type 0
Continues s r ls = split_lines (s ++ r) ≡ but_last ls ++ split_lines (last_line ls ++ r)

breaks-append : (a b : ℕ) (s r : Text) → breaks a (b ∷ s ++ r) ≡ breaks a (b ∷ s)
breaks-append a b s r = refl

unit-Continues :
    (a b : ℕ) (s r : Text) (ls : List Text)
    → (a == 10) ≡ false
    → breaks a (b ∷ s) ≡ false
    → split_lines (b ∷ s) ≡ ls
    → IsFilled ls
    → Continues (b ∷ s) r ls
    → Continues (a ∷ b ∷ s) r (put_first a ls)
unfolding but_last last_line IsFilled
unit-Continues a b s r [] e k q f h = absurd (ground arith)
unit-Continues a b s r (t ∷ []) e k q f h =
    ap (λ u. split_lines (a ∷ u ++ r)) (split_lines_one (b ∷ s) t q)
unit-Continues a b s r (t ∷ u ∷ us) e k q f h =
    split_lines_unit a (b ∷ s ++ r) e k ∙ ap (put_first a) h

feed-Continues :
    (a : ℕ) (s r : Text) (ls : List Text)
    → (a == 10) ≡ true
    → IsFilled ls
    → Continues s r ls
    → Continues (a ∷ s) r ([] ∷ ls)
unfolding but_last last_line IsFilled
feed-Continues a s r [] e f h = absurd (ground arith)
feed-Continues a s r (l ∷ ls) e f h = split_lines_feed a (s ++ r) e ∙ ap (λ m. [] ∷ m) h

nil-Continues : (r : Text) → Continues [] r (split_lines [])
unfolding split_lines but_last last_line
nil-Continues r = refl

and_false : (b : Bool) → (b && false) ≡ false
and_false true = refl
and_false false = refl

one-Continues : (a : ℕ) (r : Text) → (a == 10) ≡ false → Continues (a ∷ []) r (split_lines (a ∷ []))
unfolding but_last last_line split_lines
one-Continues a r e =
    subst (Continues (a ∷ []) r) (sym (split_lines_unit a [] e (and_false (a == 13)))) refl

after_feed :
    (a : ℕ) (s r : Text)
    → (a == 10) ≡ false
    → Continues s r (split_lines s)
    → Continues (a ∷ s) r (split_lines (a ∷ s))
after_feed a [] r e h = one-Continues a r e
after_feed a (b ∷ s) r e h = elim (Bool-cases (breaks a (b ∷ s))) [
  | inl k ↦ rw (split_lines_return a (b ∷ s) e k) (split_lines_return a (b ∷ s ++ r) e k ∙ h)
  | inr k ↦
      rw (split_lines_unit a (b ∷ s) e k)
        (unit-Continues a b s r (split_lines (b ∷ s)) e k refl (split_lines-IsFilled (b ∷ s)) h)
]

-- Splitting the last line again, with more behind it, goes on as splitting the whole does.
pub split_lines-append : (s r : Text) → Continues s r (split_lines s)
split_lines-append [] r = nil-Continues r
split_lines-append (a ∷ s) r = elim (Bool-cases (a == 10)) [
  | inl e ↦
      rw (split_lines_feed a s e)
        (feed-Continues a s r (split_lines s) e (split_lines-IsFilled s) (split_lines-append s r))
  | inr e ↦ after_feed a s r e (split_lines-append s r)
]

rest-one :
    (a : ℕ) (s : Text) (ls : List Text)
    → (a == 10) ≡ false
    → breaks a s ≡ false
    → split_lines s ≡ ls
    → IsFilled ls
    → split_lines (last_line ls) ≡ last_line ls ∷ []
    → split_lines (last_line (put_first a ls)) ≡ last_line (put_first a ls) ∷ []
unfolding last_line IsFilled
rest-one a s [] e k q f h = absurd (ground arith)
rest-one a s (t ∷ []) e k q f h =
    ap (λ u. split_lines (a ∷ u)) (sym (split_lines_one s t q))
    ∙ split_lines_unit a s e k
    ∙ ap (put_first a) q
rest-one a s (t ∷ u ∷ us) e k q f h = h

feed-one : (ls : List Text) → IsFilled ls → last_line ([] ∷ ls) ≡ last_line ls
unfolding last_line IsFilled
feed-one [] f = absurd (ground arith)
feed-one (l ∷ ls) f = refl

nil-one : split_lines (last_line (split_lines [])) ≡ last_line (split_lines []) ∷ []
unfolding split_lines last_line
nil-one = refl

-- What is carried forward is one line.
pub split_lines-last_line :
    (s : Text) → split_lines (last_line (split_lines s)) ≡ last_line (split_lines s) ∷ []
split_lines-last_line [] = nil-one
split_lines-last_line (a ∷ s) = elim (Bool-cases (a == 10)) [
  | inl e ↦
      rw (split_lines_feed a s e, feed-one (split_lines s) (split_lines-IsFilled s))
        (split_lines-last_line s)
  | inr e ↦ elim (Bool-cases (breaks a s)) [
    | inl k ↦ rw (split_lines_return a s e k) (split_lines-last_line s)
    | inr k ↦
        rw (split_lines_unit a s e k)
          (rest-one a s (split_lines s) e k refl (split_lines-IsFilled s) (split_lines-last_line s))
  ]
]
