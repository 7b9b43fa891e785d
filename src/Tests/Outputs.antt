-- ===== src/Tests/Outputs.antt =====
-- Ticks of the output handler, and the common path of some files.
use kcov.Prelude.{Bytes, All, ascii, bytes_eq, ℕ, ◌≡◌, refl, List, [], ◌∷◌, arith}
use kcov.Strings.Find.{starts_with}
use kcov.Strings.Paths.{rfind}
use kcov.Writers.{
  new_writer_base, setup_common_paths, common_loop, with_name, cut_loop, PrefixOf,
  setup_common_paths-PrefixOf,
}
use kcov.OutputHandler.{
  OutputHandler, new_output_handler, on_tick, on_ticks, produce, Outputs, on_ticks-Outputs, write,
  Forward,
}

abbrev handler : OutputHandler
handler = record (new_output_handler 5000 100) { writers = 1 ∷ 2 ∷ [] }

abbrev ticks : List (ℕ × ℕ)
ticks = (200, 200) ∷ (5200, 5400) ∷ (10300, 10300) ∷ (10400, 10450) ∷ []

ticks-Forward : Forward 100 ticks
ticks-Forward = (
  omega arith,
  omega arith,
  omega arith,
  (
    omega arith,
    omega arith,
    omega arith,
    (omega arith, omega arith, omega arith, (omega arith, omega arith, omega arith, tt)),
  ),
)

on_ticks-Outputs_example : (k : ℕ) × Outputs handler (on_ticks handler ticks) k
on_ticks-Outputs_example = on_ticks-Outputs handler 100 ticks (omega arith) ticks-Forward

-- The third tick is too early behind the second.
two_outputs : (on_ticks handler ticks).calls ≡ write 1 ∷ write 2 ∷ write 1 ∷ write 2 ∷ []
unfolding on_ticks on_tick produce
two_outputs = refl

abbrev sources : List Bytes
sources = ascii "/src/a/x.c" ∷ ascii "/src/b/y.c" ∷ ascii "/src/a/z.c" ∷ []

setup_common_paths-PrefixOf_example :
    All
      (PrefixOf (setup_common_paths (record new_writer_base { files = sources })).common_path)
      sources
setup_common_paths-PrefixOf_example = setup_common_paths-PrefixOf sources (refl, (refl, (refl, tt)))

common_src :
    (setup_common_paths (record new_writer_base { files = sources })).common_path ≡ ascii "/src"
unfolding setup_common_paths common_loop with_name cut_loop rfind starts_with bytes_eq
common_src = refl
