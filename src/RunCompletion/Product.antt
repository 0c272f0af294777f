-- ===== src/RunCompletion/Product.antt =====
-- `chooseProduct` of studio/src/shared/runCompletion.ts. `a.localeCompare(b) < 0` is a parameter.
pub mod Times
pub mod Laws
use reticle.Common.{
  ℕ, ◌==◌, ltb, Text, codes, same, contains, starts_with, ends_with, split, drop, last?, length,
  any, filter, find, map, List, [], ◌∷◌, ◌++◌, Option, none, some, ◌<|>◌, Bool, true, false, not,
  ◌&&◌, ◌||◌, ◌≡◌, refl, sym, subst, ◌∙◌, All, All-filter, All-append, arith, if◌then◌else◌,
  Option-cases, Bool-cases, inl, inr, same_iff, ap,
}
use reticle.Common.Sort.{sort}
use reticle.Files.{after_last, name_extension}

pub record RunProduct : Type 0 where
  pub preview_entry : Option Text
  pub code_files : List Text

abbrev pub ignored_segments : List Text
ignored_segments =
    codes ".rag"
    ∷ codes ".git"
    ∷ codes "node_modules"
    ∷ codes "__pycache__"
    ∷ codes "dist"
    ∷ codes "build"
    ∷ []

abbrev pub lockfiles : List Text
lockfiles =
    codes "package-lock.json"
    ∷ codes "yarn.lock"
    ∷ codes "pnpm-lock.yaml"
    ∷ codes "poetry.lock"
    ∷ codes "uv.lock"
    ∷ []

abbrev pub code_extensions : List Text
code_extensions =
    codes "html"
    ∷ codes "css"
    ∷ codes "js"
    ∷ codes "mjs"
    ∷ codes "jsx"
    ∷ codes "ts"
    ∷ codes "tsx"
    ∷ codes "vue"
    ∷ codes "svelte"
    ∷ codes "py"
    ∷ codes "go"
    ∷ codes "rs"
    ∷ codes "java"
    ∷ codes "rb"
    ∷ codes "php"
    ∷ codes "sh"
    ∷ codes "json"
    ∷ codes "yml"
    ∷ codes "yaml"
    ∷ codes "toml"
    ∷ codes "md"
    ∷ codes "sql"
    ∷ codes "svg"
    ∷ []

-- `path.replace(/^\.?\//, '')`: one slash at the start, with a dot in front or not.
abbrev pub without_root : Text → Text
without_root s =
    if starts_with s (codes "./")
    then drop 2 s
    else if starts_with s (codes "/")
    then drop 1 s
    else s

unfoldable pub normalize : Text → Text
normalize path = without_root (map (λ c. if c == 92 then b'/' else c) path)

unfoldable pub path_extension : Text → Text
unfolding after_last name_extension
path_extension path = name_extension (after_last b'/' path)

abbrev pub depth : Text → ℕ
depth path = length (split b'/' path)

-- `depthThenName(a, b) < 0`
abbrev pub depth_then_name : (Text → Text → Bool) → Text → Text → Bool
depth_then_name locale_before a b =
    ltb (depth a) (depth b) || depth a == depth b && locale_before a b

abbrev pub is_lockfile : Option Text → Bool
is_lockfile none = false
is_lockfile (some name) = contains name lockfiles

unfoldable pub is_output : Text → Bool
is_output path =
    not (same path [])
    && not (any (λ segment. contains segment ignored_segments) (split b'/' path))
    && not (is_lockfile (last? (split b'/' path)))

-- `[...new Set(paths)]`: each text once, at its first place.
unfoldable pub once : List Text → List Text → List Text
once seen [] = []
once seen (p ∷ ps) =
    let later = once (p ∷ seen) ps in
    let rest = once seen ps in if contains p seen then rest else p ∷ later

unfoldable pub output_files : List Text → List Text
unfolding once normalize is_output
output_files paths = filter is_output (once [] (map normalize paths))

abbrev pub is_page : Text → Bool
unfolding path_extension
is_page path = same (path_extension path) (codes "html")

abbrev pub is_code : Text → Bool
unfolding path_extension
is_code path = contains (path_extension path) code_extensions

abbrev pub first : List Text → Option Text
first [] = none
first (p ∷ ps) = some p

unfoldable pub entry_of : List Text → Option Text
entry_of pages =
    find (λ p. same p (codes "index.html")) pages
    <|> find (λ p. ends_with p (codes "/index.html")) pages
    <|> first pages

unfoldable pub choose_product : (Text → Text → Bool) → List Text → RunProduct
unfolding output_files entry_of sort
choose_product locale_before paths =
    let files = output_files paths in
    let entry = entry_of (sort (depth_then_name locale_before) (filter is_page files)) in
    let code = sort (depth_then_name locale_before) (filter is_code files) in
    record {
      preview_entry = entry;
      code_files = elim entry [ none ↦ code | some e ↦ e ∷ filter (λ p. not (same p e)) code ];
    }
