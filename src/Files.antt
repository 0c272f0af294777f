-- ===== src/Files.antt =====
-- What a file is, by its name and by its bytes: studio/src/shared/fileKind.ts and binarySniff.ts.
pub mod Sniff
use reticle.Common.{
  ℕ, suc, ltb, Text, codes, contains, last_index_of, drop, lower, List, [], ◌∷◌, Option, none, some,
  Bool, true, false, not, ◌==◌, if◌then◌else◌,
}

pub data FileKind : Type 0 where
  image model text : FileKind

abbrev pub image_extensions : List Text
image_extensions =
    codes "png"
    ∷ codes "apng"
    ∷ codes "jpg"
    ∷ codes "jpeg"
    ∷ codes "jfif"
    ∷ codes "gif"
    ∷ codes "webp"
    ∷ codes "avif"
    ∷ codes "svg"
    ∷ codes "ico"
    ∷ codes "bmp"
    ∷ []

abbrev pub model_extensions : List Text
model_extensions = codes "glb" ∷ codes "gltf" ∷ []

-- `s.slice(s.lastIndexOf(c) + 1)`
unfoldable pub after_last : ℕ → Text → Text
after_last c s = elim (last_index_of s c) [ none ↦ s | some i ↦ drop (suc i) s ]

-- The part of a name behind its last dot, in lower case; a dot in front is no extension.
unfoldable pub name_extension : Text → Text
name_extension name = elim (last_index_of name b'.') [
  | none ↦ []
  | some dot ↦ if ltb 0 dot then lower (drop (suc dot) name) else []
]

-- The name starts behind the later of the last slash and the last backslash, which is where it
-- starts once both have been passed.
unfoldable pub extension_of : Text → Text
unfolding after_last name_extension
extension_of path = name_extension (after_last 92 (after_last b'/' path))

unfoldable pub file_kind_for : Text → FileKind
unfolding extension_of
file_kind_for path =
    if contains (extension_of path) image_extensions
    then image
    else if contains (extension_of path) model_extensions
    then model
    else text

unfoldable pub is_binary_kind : FileKind → Bool
is_binary_kind image = true
is_binary_kind model = true
is_binary_kind text = false
