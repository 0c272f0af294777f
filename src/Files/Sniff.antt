-- ===== src/Files/Sniff.antt =====
-- studio/src/shared/binarySniff.ts: a file's kind by its first bytes.
pub mod Laws
use reticle.Common.{
  ℕ, zero, suc, ltb, Text, codes, starts_with, drop, take, trim_start, index_of, List, [], ◌∷◌,
  Option, none, some, Bool, true, false, ◌&&◌, ◌||◌, ◌==◌, if◌then◌else◌, any, length,
}

pub data SniffedKind : Type 0 where
  png jpeg gif webp bmp ico glb gltf unknown : SniffedKind

pub record Sniffed : Type 0 where
  pub kind : SniffedKind
  pub mime : Text
  pub image : Bool

abbrev pub sniffed : SniffedKind → Text → Bool → Sniffed
sniffed kind mime image = record { kind = kind; mime = mime; image = image }

abbrev pub unknown_data : Sniffed
unknown_data = sniffed unknown (codes "application/octet-stream") false

-- `startsWith(bytes, signature, offset)`: past the end of the bytes no signature fits.
abbrev pub has_at : List ℕ → List ℕ → ℕ → Bool
has_at bytes signature offset = starts_with (drop offset bytes) signature

-- The white space and byte-order marks that may stand in front of a JSON text.
unfoldable pub is_lead : ℕ → Bool
is_lead c = c == 0x20 || c == 0x09 || c == 0x0a || c == 0x0d || c == 0xef || c == 0xbb || c == 0xbf

-- The bytes from `at` on, when at most `rounds` more are skipped.
unfoldable pub skip_lead : ℕ → List ℕ → List ℕ
unfolding is_lead
skip_lead zero bytes = bytes
skip_lead (suc rounds) [] = []
skip_lead (suc rounds) (c ∷ bytes) =
    let rest = skip_lead rounds bytes in if is_lead c then rest else c ∷ bytes

-- `/"asset"\s*:/.test(head)`
unfoldable pub names_asset : Text → Bool
names_asset [] = false
names_asset (c ∷ s) =
    starts_with (c ∷ s) (codes "\"asset\"") && starts_with (trim_start (drop 7 (c ∷ s))) (codes ":")
    || names_asset s

unfoldable pub is_gltf : List ℕ → Bool
unfolding skip_lead names_asset
is_gltf bytes = starts_with (skip_lead 64 bytes) (codes "{") && names_asset (take 4096 bytes)

abbrev pub png_signature : List ℕ
png_signature = 0x89 ∷ 0x50 ∷ 0x4e ∷ 0x47 ∷ 0x0d ∷ 0x0a ∷ 0x1a ∷ 0x0a ∷ []

abbrev pub jpeg_signature : List ℕ
jpeg_signature = 0xff ∷ 0xd8 ∷ 0xff ∷ []

abbrev pub ico_signature : List ℕ
ico_signature = 0 ∷ 0 ∷ 1 ∷ 0 ∷ []

unfoldable pub sniff_binary : List ℕ → Sniffed
unfolding is_gltf
sniff_binary bytes =
    if has_at bytes png_signature 0
    then sniffed png (codes "image/png") true
    else if has_at bytes jpeg_signature 0
    then sniffed jpeg (codes "image/jpeg") true
    else if has_at bytes (codes "GIF87a") 0 || has_at bytes (codes "GIF89a") 0
    then sniffed gif (codes "image/gif") true
    else if has_at bytes (codes "RIFF") 0 && has_at bytes (codes "WEBP") 8
    then sniffed webp (codes "image/webp") true
    else if has_at bytes (codes "BM") 0
    then sniffed bmp (codes "image/bmp") true
    else if has_at bytes ico_signature 0
    then sniffed ico (codes "image/x-icon") true
    else if has_at bytes (codes "glTF") 0
    then sniffed glb (codes "model/gltf-binary") false
    else if is_gltf bytes
    then sniffed gltf (codes "model/gltf+json") false
    else unknown_data

unfoldable pub describe_sniffed : Sniffed → Text
describe_sniffed s = elim s.kind [
  | png ↦ codes "PNG"
  | jpeg ↦ codes "JPEG"
  | gif ↦ codes "GIF"
  | webp ↦ codes "WEBP"
  | bmp ↦ codes "BMP"
  | ico ↦ codes "ICO"
  | glb ↦ codes "GLB"
  | gltf ↦ codes "GLTF"
  | unknown ↦ codes "unrecognised data"
]
