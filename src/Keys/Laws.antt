-- ===== src/Keys/Laws.antt =====
-- What setting and removing a key does to the `.env` file (Keys).
use reticle.Common.{
  ℕ, Text, codes, same, same_iff, trim, List, [], ◌∷◌, ◌++◌, map, any, All, All-append, last?, none,
  some, true, false, if◌then◌else◌, ◌<|>◌, ◌≡◌, ◌≢◌, refl, sym, ap, ◌∙◌, arith, Bool-cases,
  Option-cases, inl, inr,
}
use reticle.Common.Lines.{IsPlain}
use reticle.Common.Trimming.{Starts, trim_empty}
use reticle.Keys.{
  is_terminator, read_line, is_variable_name, sets, replace_line, drop_last, set_lines, is_blank,
}
use reticle.Keys.Lines.{read_line_new}
use reticle.Keys.Parts.{read_line-whole, All-split, value-IsPlain, name-IsPlain}
use reticle.Keys.Values.{
  value_in, last_value, last_value-append, blank-value_in, some-value_in, last_value-map,
  replace_line-none, replace_line-some,
}

abbrev IsPlainUnit : ℕ → Type 0
IsPlainUnit a = (a ≢ 10) × (a ≢ 13)

-- The groups of a plain line are plain, with another plain value too.
groups-IsPlain :
    (i n e v clean : Text)
    → IsPlain (i ++ (n ++ (e ++ v)))
    → IsPlain clean
    → IsPlain (i ++ (n ++ (e ++ clean)))
groups-IsPlain i n e v clean h c =
    let (hi, r) = All-split IsPlainUnit i (n ++ (e ++ v)) h in
    let (hn, q) = All-split IsPlainUnit n (e ++ v) r in
    let (he, _) = All-split IsPlainUnit e v q in
    All-append IsPlainUnit i (n ++ (e ++ clean)) hi
      (All-append IsPlainUnit n (e ++ clean) hn (All-append IsPlainUnit e clean he c))

replace_line-IsPlain :
    (name clean line : Text) → IsPlain clean → IsPlain line → IsPlain (replace_line name clean line)
replace_line-IsPlain name clean line c l = elim (Option-cases (read_line line)) [
  | inl e ↦ rw (replace_line-none name clean line e) l
  | inr (m, e) ↦ rw (replace_line-some name clean line m e) (elim (Bool-cases (same m.name name)) [
    | inr k ↦ rw k l
    | inl k ↦
        rw k (
          groups-IsPlain m.indent m.name m.equals m.value clean (rw (read_line-whole line m e) l) c)
  ])
]

drop_last-All : (P : Text → Type 0) (ls : List Text) → All P ls → All P (drop_last ls)
unfolding drop_last
drop_last-All P [] h = tt
drop_last-All P (l ∷ []) h = tt
drop_last-All P (l ∷ m ∷ ls) h = (h.0, drop_last-All P (m ∷ ls) h.1)

map-All :
    (P : Text → Type 0) (f : Text → Text) (ls : List Text)
    → ((l : Text) → P l → P (f l))
    → All P ls
    → All P (map f ls)
map-All P f [] k h = tt
map-All P f (l ∷ ls) k h = (k l h.0, map-All P f ls k h.1)

last_value-drop_last :
    (k : Text) (ls : List Text)
    → is_blank (last? ls) ≡ true
    → last_value k (drop_last ls) ≡ last_value k ls
unfolding drop_last last_value
last_value-drop_last k [] h = refl
last_value-drop_last k (l ∷ []) h =
    sym (blank-value_in k l (trim_empty l ((same_iff (trim l) []).0 h)))
last_value-drop_last k (l ∷ m ∷ ls) h =
    ap (λ v. v <|> value_in k l) (last_value-drop_last k (m ∷ ls) h)

module _ (name clean : Text) (n : is_variable_name name ≡ true) (s : Starts clean)
    (w : trim clean ≡ clean) (t : any is_terminator clean ≡ false) where
  added_value :
      (k : Text)
      → value_in k (name ++ (codes "=" ++ clean)) ≡ (if same name k then some clean else none)
  added_value k =
      some-value_in k (name ++ (codes "=" ++ clean))
        (record { indent = []; name = name; equals = codes "="; value = clean })
        (read_line_new name clean n s t)
      ∙ ap (λ v. if same name k then some v else none) w

  pub set_lines-IsPlain : (ls : List Text) → All IsPlain ls → All IsPlain (set_lines name clean ls)
  unfolding set_lines
  set_lines-IsPlain ls h =
      let c = value-IsPlain clean t in
      let next =
        map-All IsPlain (replace_line name clean) ls (λ l. replace_line-IsPlain name clean l c) h in
      let new : IsPlain (name ++ (codes "=" ++ clean)) =
        All-append IsPlainUnit name (codes "=" ++ clean) (name-IsPlain name n)
          (((λ e. absurd (omega arith)), (λ e. absurd (omega arith))), c) in
      elim (Bool-cases (any (sets name) ls)) [
        | inl e ↦ rw e next
        | inr e ↦ elim (Bool-cases (is_blank (last? (map (replace_line name clean) ls)))) [
          | inl b ↦
              rw (e, b)
                (All-append IsPlain (drop_last (map (replace_line name clean) ls)) _
                  (drop_last-All IsPlain (map (replace_line name clean) ls) next) (new, tt))
          | inr b ↦
              rw (e, b) (All-append IsPlain (map (replace_line name clean) ls) _ next (new, tt))
        ]
      ]

  last_value-added :
      (k : Text) (xs ls : List Text)
      → any (sets name) ls ≡ false
      → last_value k xs ≡ last_value k (map (replace_line name clean) ls)
      → last_value k (xs ++ (name ++ (codes "=" ++ clean)) ∷ [])
        ≡ (if same name k then some clean else last_value k ls)
  unfolding last_value
  last_value-added k xs ls a e =
      last_value-append k xs ((name ++ (codes "=" ++ clean)) ∷ [])
      ∙ ground (arith, added_value k, last_value-map name clean s w t k ls)

  -- Setting a variable gives it the value, and every other variable keeps its own.
  pub last_value-set_lines :
      (k : Text) (ls : List Text)
      → last_value k (set_lines name clean ls)
        ≡ (if same name k then some clean else last_value k ls)
  unfolding set_lines
  last_value-set_lines k ls = elim (Bool-cases (any (sets name) ls)) [
    | inl e ↦ rw e (ground (arith, last_value-map name clean s w t k ls))
    | inr e ↦ elim (Bool-cases (is_blank (last? (map (replace_line name clean) ls)))) [
      | inl b ↦
          rw (e, b)
            (last_value-added k (drop_last (map (replace_line name clean) ls)) ls e
              (last_value-drop_last k (map (replace_line name clean) ls) b))
      | inr b ↦ rw (e, b) (last_value-added k (map (replace_line name clean) ls) ls e refl)
    ]
  ]
