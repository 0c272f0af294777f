-- ===== src/Tests/Payloads.antt =====
-- The theorems on ids, signals, bytes and products at concrete inputs, and runs.
use reticle.Common.{
  Text, Bool, codes, same, contains, lower_code, length, ltb, map, ◌&&◌, if◌then◌else◌, List, [],
  ◌∷◌, ◌++◌, some, false, ◌≡◌, ◌≢◌, refl, All, arith,
}
use reticle.Ids.{parse_task_id, make_task_id}
use reticle.Ids.Laws.{parse_task_id-make_task_id, IsPlain}
use reticle.Ids.Signals.{indicates_mock_fallback}
use reticle.Ids.Signals.Mock.{indicates_mock_fallback_tag, IsQuiet}
use reticle.RunCompletion.Product.{choose_product, normalize, is_output, once, path_extension}
use reticle.RunCompletion.Product.Times.{times}
use reticle.RunCompletion.Product.Laws.{Leads, is_offered, choose_product-Leads}
use reticle.Common.{starts_with, ends_with, split, last_index_of, lower}
use reticle.Files.Sniff.{sniff_binary, gif}
use reticle.Files.Sniff.Laws.{same_kind, shows, is_picture, sniff_binary-shows}

run_id-ne : codes "run-1" ≢ []
run_id-ne h = cc

run_id-IsPlain : IsPlain (codes "run-1")
run_id-IsPlain = (omega arith, (omega arith, (omega arith, (omega arith, (omega arith, tt)))))

parse_task_id-make_task_id_example :
    parse_task_id (some (make_task_id (codes "run-1") (codes "a|b")))
    ≡ record { exec_id = some (codes "run-1"); node_id = some (codes "a|b") }
parse_task_id-make_task_id_example =
    parse_task_id-make_task_id (codes "run-1") (codes "a|b") run_id-ne run_id-IsPlain

on-IsQuiet : All IsQuiet (codes " on")
unfolding lower_code
on-IsQuiet = ground arith

indicates_mock_fallback_tag_example :
    indicates_mock_fallback (some (codes "[MOCK]" ++ codes " on")) ≡ false
indicates_mock_fallback_tag_example = indicates_mock_fallback_tag (codes " on") on-IsQuiet

sniff_binary-shows_example :
    (same_kind (sniff_binary (codes "GIF89a1")).kind gif ≡ shows (codes "GIF89a1") gif)
    × ((sniff_binary (codes "GIF89a1")).image ≡ is_picture (sniff_binary (codes "GIF89a1")).kind)
sniff_binary-shows_example = sniff_binary-shows (codes "GIF89a1") gif

abbrev before_by_length : Text → Text → Bool
before_by_length s t = ltb (length s) (length t)

abbrev product_paths : List Text
product_paths = codes "./app/index.html" ∷ codes "main.py" ∷ codes "dist/out.js" ∷ []

choose_product-Leads_example :
    Leads product_paths
      (choose_product before_by_length product_paths).preview_entry
      (choose_product before_by_length product_paths).code_files
    × ((p : Text)
        → times p (choose_product before_by_length product_paths).code_files
          ≡ (if contains p (map normalize product_paths) && is_offered p then 1 else 0))
choose_product-Leads_example = choose_product-Leads before_by_length product_paths

choose_product_paths : choose_product before_by_length product_paths ≡ record {
  preview_entry = some (codes "app/index.html");
  code_files = codes "app/index.html" ∷ codes "main.py" ∷ [];
}
unfolding choose_product same contains starts_with ends_with split normalize is_output once
    path_extension last_index_of lower
choose_product_paths = refl
