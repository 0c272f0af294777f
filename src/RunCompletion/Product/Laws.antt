-- ===== src/RunCompletion/Product/Laws.antt =====
-- What `chooseProduct` of studio/src/shared/runCompletion.ts offers.
use reticle.Common.{
  Text, codes, same, same_iff, same_refl, ◌≤◌, ◌==◌, contains, ends_with, filter, find, map, any,
  split, last?, last_index_of, lower, List, [], ◌∷◌, Option, none, some, or_else, Bool, true, false,
  not, ◌&&◌, ◌||◌, ◌≡◌, refl, ap, sym, ◌∙◌, arith, if◌then◌else◌, Option-cases, List-cases, inl,
  inr,
}
use reticle.Common.Sort.{sort}
use reticle.RunCompletion.Product.{
  ignored_segments, lockfiles, code_extensions, path_extension, depth_then_name, is_output,
  is_lockfile, normalize, output_files, is_page, is_code, once, entry_of, choose_product,
}
use reticle.RunCompletion.Product.Times.{
  times, times-sort, times-filter, times-once, times-first, times-find, times-find-none,
}

-- The name of a path's file.
abbrev name_of : Text → Text
name_of p = or_else (last? (split b'/' p)) []

-- A file that is worth opening: its path is not empty, no ignored folder holds it, it is no lock file,
-- and its extension is one of code.
abbrev pub is_offered : Text → Bool
is_offered p =
    contains (path_extension p) code_extensions
    && (not (same p [] || contains (name_of p) lockfiles)
        && not (any (λ segment. contains segment ignored_segments) (split b'/' p)))

is_code_lem : (p : Text) → is_code p ≡ contains (path_extension p) code_extensions
unfolding path_extension
is_code_lem p = refl

is_page_lem : (p : Text) → is_page p ≡ same (path_extension p) (codes "html")
unfolding path_extension
is_page_lem p = refl

is_lockfile-name_of : (o : Option Text) → is_lockfile o ≡ contains (or_else o []) lockfiles
unfolding contains same
is_lockfile-name_of none = refl
is_lockfile-name_of (some name) = refl

is_output-is_offered : (p : Text) → (is_output p && is_code p) ≡ is_offered p
unfolding is_output
is_output-is_offered p = ground (arith, is_code_lem p, is_lockfile-name_of (last? (split b'/' p)))

page-is_code : (p : Text) → is_page p ≡ true → is_code p ≡ true
unfolding contains same
page-is_code p h =
    is_code_lem p
    ∙ ap (λ e. contains e code_extensions)
        ((same_iff (path_extension p) (codes "html")).0 (sym (is_page_lem p) ∙ h))
    ∙ refl

times-output_files :
    (p : Text) (paths : List Text)
    → times p (output_files paths)
      ≡ (if contains p (map normalize paths) && is_output p then 1 else 0)
unfolding output_files contains
times-output_files p paths = ground (
  arith,
  times-filter is_output p (once [] (map normalize paths)),
  times-once p [] (map normalize paths),
)

-- Each file that is worth opening is in the list of code once, and no other.
times-code :
    (lt : Text → Text → Bool) (p : Text) (paths : List Text)
    → times p (sort lt (filter is_code (output_files paths)))
      ≡ (if contains p (map normalize paths) && is_offered p then 1 else 0)
times-code lt p paths = ground (
  arith,
  times-sort lt p (filter is_code (output_files paths)),
  times-filter is_code p (output_files paths),
  times-output_files p paths,
  is_output-is_offered p,
)

abbrev pub index_page : Text
index_page = codes "index.html"

-- The entry of a list of pages, if it has one, is a page of it, and the index page where that is one.
entry_of-times :
    (pages : List Text) (e : Text)
    → entry_of pages ≡ some e
    → (1 ≤ times e pages) × ((same e index_page || times index_page pages == 0) ≡ true)
unfolding entry_of
entry_of-times pages e h = elim (Option-cases (find (λ p. same p index_page) pages)) [
  | inr (i, m) ↦ ground (arith, m, times-find (λ p. same p index_page) pages i m)
  | inl m ↦
      let absent =
        times-find-none (λ p. same p index_page) pages index_page m (same_refl index_page) in
      elim (Option-cases (find (λ p. ends_with p (codes "/index.html")) pages)) [
        | inr (i, n) ↦
            ground
              (arith, m, n, absent, times-find (λ p. ends_with p (codes "/index.html")) pages i n)
        | inl n ↦ elim (List-cases pages) [
          | inl k ↦ ground (arith, m, n, k)
          | inr (x, rest, k) ↦ ground (arith, m, n, k, absent, same_refl x)
        ]
      ]
]

entry_of-none : (pages : List Text) (p : Text) → entry_of pages ≡ none → times p pages ≡ 0
unfolding entry_of
entry_of-none [] p h = refl
entry_of-none (x ∷ pages) p h = absurd (ground arith)

-- A file that is worth opening and a page.
abbrev pub is_shown_page : Text → Bool
is_shown_page p = is_offered p && same (path_extension p) (codes "html")

is_output-is_shown_page : (p : Text) → (is_output p && is_page p) ≡ is_shown_page p
is_output-is_shown_page p = ground (arith, is_output-is_offered p, is_page_lem p, page-is_code p)

times-pages :
    (lt : Text → Text → Bool) (p : Text) (paths : List Text)
    → times p (sort lt (filter is_page (output_files paths)))
      ≡ (if contains p (map normalize paths) && is_shown_page p then 1 else 0)
times-pages lt p paths = ground (
  arith,
  times-sort lt p (filter is_page (output_files paths)),
  times-filter is_page p (output_files paths),
  times-output_files p paths,
  is_output-is_shown_page p,
)

index_page-is_shown : is_shown_page index_page ≡ true
unfolding path_extension contains same split last_index_of lower
index_page-is_shown = refl

-- The page to preview: none only where no path is a page, and else a page that is the first of the
-- files, and the index page where that is among the paths.
abbrev pub Leads : List Text → Option Text → List Text → Type 0
Leads paths none files = (p : Text) → (contains p (map normalize paths) && is_shown_page p) ≡ false
Leads paths (some e) [] = ⊥
Leads paths (some e) (f ∷ files) =
    (f ≡ e)
    × (is_shown_page e ≡ true)
    × ((same e index_page || not (contains index_page (map normalize paths))) ≡ true)

entry-is_shown :
    (lt : Text → Text → Bool) (paths : List Text) (e : Text)
    → entry_of (sort lt (filter is_page (output_files paths))) ≡ some e
    → ((contains e (map normalize paths) && is_shown_page e) ≡ true)
      × ((same e index_page || not (contains index_page (map normalize paths))) ≡ true)
entry-is_shown lt paths e m = ground (
  arith,
  entry_of-times (sort lt (filter is_page (output_files paths))) e m,
  times-pages lt e paths,
  times-pages lt index_page paths,
  index_page-is_shown,
)

-- Each of the paths, normalized, is offered once if it is worth opening: not empty, in no ignored
-- folder, no lock file, and of an extension of code. Nothing else is offered. A page is previewed
-- unless none of them is a page; it comes first, and is `index.html` where that is among them. This
-- holds for every order of the locale.
pub choose_product-Leads :
    (locale_before : Text → Text → Bool) (paths : List Text)
    → let product = choose_product locale_before paths in
      Leads paths product.preview_entry product.code_files
      × ((p : Text)
          → times p product.code_files
            ≡ (if contains p (map normalize paths) && is_offered p then 1 else 0))
unfolding choose_product
choose_product-Leads locale_before paths =
    by_entry (entry_of (sort lt (filter is_page (output_files paths)))) refl
  where
    lt : Text → Text → Bool
    lt = depth_then_name locale_before

    by_entry :
        (entry : Option Text)
        → entry_of (sort lt (filter is_page (output_files paths))) ≡ entry
        → let product = choose_product locale_before paths in
          Leads paths product.preview_entry product.code_files
          × ((p : Text)
              → times p product.code_files
                ≡ (if contains p (map normalize paths) && is_offered p then 1 else 0))
    by_entry none m =
        rw (m, choose_product)
          (
            λ p. ground (
              arith,
              entry_of-none (sort lt (filter is_page (output_files paths))) p m,
              times-pages lt p paths,
            ),
            λ p. times-code lt p paths,
          )
    by_entry (some e) m =
        let page = entry-is_shown lt paths e m in
        let code = sort lt (filter is_code (output_files paths)) in
        let once_there : times e code ≡ 1 = ground (arith, times-code lt e paths, page) in
        rw (m, choose_product)
          (
            (refl, ground (arith, page), page.1),
            λ p. times-first p e code once_there ∙ times-code lt p paths,
          )
