-- ===== src/Files/Sniff/Laws.antt =====
-- The answer of studio/src/shared/binarySniff.ts, by what the bytes begin with.
use reticle.Common.{
  ℕ, ◌==◌, Text, codes, starts_with, drop, take, List, [], ◌∷◌, Bool, true, false, not, ◌≡◌, arith,
  ◌&&◌, ◌||◌,
}
use reticle.Files.Sniff.{
  SniffedKind, png, jpeg, gif, webp, bmp, ico, glb, gltf, unknown, is_lead, skip_lead, names_asset,
  is_gltf, sniff_binary,
}

-- A number for each kind, so that kinds can be compared.
abbrev number_of : SniffedKind → ℕ
number_of kind = elim kind [
  | png ↦ 0
  | jpeg ↦ 1
  | gif ↦ 2
  | webp ↦ 3
  | bmp ↦ 4
  | ico ↦ 5
  | glb ↦ 6
  | gltf ↦ 7
  | unknown ↦ 8
]

abbrev pub same_kind : SniffedKind → SniffedKind → Bool
same_kind j k = number_of j == number_of k

-- What the bytes of each kind begin with; for data that is not known, nothing of these.
abbrev begins : List ℕ → Text → Bool
begins bytes signature = starts_with bytes signature

abbrev known : List ℕ → SniffedKind → Bool
known bytes png = begins bytes (0x89 ∷ 0x50 ∷ 0x4e ∷ 0x47 ∷ 0x0d ∷ 0x0a ∷ 0x1a ∷ 0x0a ∷ [])
known bytes jpeg = begins bytes (0xff ∷ 0xd8 ∷ 0xff ∷ [])
known bytes gif = begins bytes (codes "GIF87a") || begins bytes (codes "GIF89a")
known bytes webp = begins bytes (codes "RIFF") && begins (drop 8 bytes) (codes "WEBP")
known bytes bmp = begins bytes (codes "BM")
known bytes ico = begins bytes (0 ∷ 0 ∷ 1 ∷ 0 ∷ [])
known bytes glb = begins bytes (codes "glTF")
known bytes gltf = begins (skip_lead 64 bytes) (codes "{") && names_asset (take 4096 bytes)
known bytes unknown = false

abbrev pub shows : List ℕ → SniffedKind → Bool
shows bytes png = known bytes png
shows bytes jpeg = known bytes jpeg
shows bytes gif = known bytes gif
shows bytes webp = known bytes webp
shows bytes bmp = known bytes bmp
shows bytes ico = known bytes ico
shows bytes glb = known bytes glb
shows bytes gltf = known bytes gltf
shows bytes unknown = not (
    known bytes png
    || known bytes jpeg
    || known bytes gif
    || known bytes webp
    || known bytes bmp
    || known bytes ico
    || known bytes glb
    || known bytes gltf)

-- The kinds that the window shows as pictures.
abbrev pub is_picture : SniffedKind → Bool
is_picture kind = not (same_kind kind glb || same_kind kind gltf || same_kind kind unknown)

-- The first byte, and no byte where there is none.
abbrev first_byte : List ℕ → ℕ
first_byte [] = 256
first_byte (c ∷ bytes) = c

begins-first_byte :
    (c : ℕ) (signature bytes : List ℕ)
    → starts_with bytes (c ∷ signature) ≡ true
    → first_byte bytes ≡ c
unfolding starts_with
begins-first_byte c signature [] h = cc
begins-first_byte c signature (d ∷ bytes) h = ground arith

skip_lead-first_byte :
    (bytes : List ℕ)
    → starts_with (skip_lead 64 bytes) (codes "{") ≡ true
    → (is_lead (first_byte bytes) || first_byte bytes == b'{') ≡ true
unfolding starts_with skip_lead
skip_lead-first_byte [] h = cc
skip_lead-first_byte (c ∷ bytes) h = ground arith

-- What the bytes begin with says their kind: each kind is answered exactly where they begin as it
-- does, in whatever order the kinds are tried, and the kind is unknown exactly where they begin as
-- none does. The pictures are the kinds that are neither models nor unknown.
pub sniff_binary-shows :
    (bytes : List ℕ) (kind : SniffedKind)
    → (same_kind (sniff_binary bytes).kind kind ≡ shows bytes kind)
      × ((sniff_binary bytes).image ≡ is_picture (sniff_binary bytes).kind)
unfolding sniff_binary is_gltf is_lead
sniff_binary-shows bytes kind = ground (
  arith,
  begins-first_byte 0x89 (0x50 ∷ 0x4e ∷ 0x47 ∷ 0x0d ∷ 0x0a ∷ 0x1a ∷ 0x0a ∷ []) bytes,
  begins-first_byte 0xff (0xd8 ∷ 0xff ∷ []) bytes,
  begins-first_byte b'G' (codes "IF87a") bytes,
  begins-first_byte b'G' (codes "IF89a") bytes,
  begins-first_byte b'R' (codes "IFF") bytes,
  begins-first_byte b'B' (codes "M") bytes,
  begins-first_byte 0 (0 ∷ 1 ∷ 0 ∷ []) bytes,
  begins-first_byte b'g' (codes "lTF") bytes,
  skip_lead-first_byte bytes,
)
