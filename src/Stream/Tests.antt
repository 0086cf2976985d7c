-- ===== src/Stream/Tests.antt =====
-- Runs of the pipeline and the segmenter, and each theorem about them at a concrete input.
use xiaozhi_esp32_server_gol.Common.{
  ℕ, suc, ◌≡◌, refl, inr, true, false, some, List, [], ◌∷◌, arith,
}
use xiaozhi_esp32_server_gol.Common.Int.{pos}
use xiaozhi_esp32_server_gol.Sentence.{Unicode}
use xiaozhi_esp32_server_gol.Stream.{
  Item, Transformer, Factory, pushed, stopped, register, push, push_items, push_steps, text_delta,
  tool_calls,
}
use xiaozhi_esp32_server_gol.Common.Sorting.{sort_onto, insert_sorted}
use xiaozhi_esp32_server_gol.Stream.Segmenter.{Segmenter, new_segmenter, transform}
use xiaozhi_esp32_server_gol.Stream.Calls.{all_calls, stream, stream-calls}
use xiaozhi_esp32_server_gol.Stream.Ending.{Finished, transform-Finished}

abbrev delta : Item ℕ ℕ
delta = record {
  kind = text_delta;
  text = b'h' ∷ b'i' ∷ b'.' ∷ [];
  calls = [];
  is_end = true;
  meta = 0;
}

abbrev call : Item ℕ ℕ
call = record { kind = tool_calls; text = []; calls = 5 ∷ 6 ∷ []; is_end = false; meta = 0 }

-- It counts the items and gives each of them twice.
abbrev twice : Transformer ℕ ℕ ℕ ℕ
twice = record {
  name = "twice";
  transform = λ i w. (inr (record { items = i ∷ i ∷ []; stop = false }), suc w);
  close = λ w. (some 1, suc w);
}

abbrev final : Transformer ℕ ℕ ℕ ℕ
final = record {
  name = "final";
  transform = λ i w. (inr (record { items = []; stop = true }), suc w);
  close = λ w. (some 2, suc w);
}

abbrev factory : ℕ → Factory ℕ ℕ ℕ ℕ
factory n = record { name = "f"; priority = pos n; new = λ w. (inr twice, w) }

abbrev unicode : Unicode
unicode = record { is_digit = λ c. false; is_space = λ c. false }

pushed_twice : push (twice ∷ twice ∷ []) call 0 ≡ (pushed (call ∷ call ∷ call ∷ call ∷ []), 3)
unfolding push push_steps push_items
pushed_twice = refl

pushed_final : push (twice ∷ final ∷ twice ∷ []) call 0 ≡ (stopped [], 2)
unfolding push push_steps push_items
pushed_final = refl

stable :
    register (some (record (factory 1) { name = "g" })) (factory 1 ∷ factory 2 ∷ [])
    ≡ factory 1 ∷ record (factory 1) { name = "g" } ∷ factory 2 ∷ []
unfolding register sort_onto insert_sorted
stable = refl

stream-calls_example :
    (r : List (Item ℕ ℕ) × Segmenter ℕ) × (stream unicode (call ∷ delta ∷ []) new_segmenter
      ≡ some r)
    × (all_calls r ≡ 5 ∷ 6 ∷ [])
stream-calls_example =
    stream-calls unicode (call ∷ delta ∷ []) new_segmenter ((λ e. ground arith), ((λ e. refl), tt))

transform-Finished_example :
    (r : List (Item ℕ ℕ) × Segmenter ℕ) × (transform unicode delta new_segmenter ≡ some r)
    × Finished r
transform-Finished_example = transform-Finished unicode delta new_segmenter refl refl
