-- ===== src/Sentence/Tests.antt =====
-- Runs of the sentence splitter, and each theorem about it at a concrete input.
use mathlib.Core.List.{Sublist}
use Prim.Native.Char.{code}
use xiaozhi_esp32_server_gol.Common.{All, ◌++◌, ◌≡◌, refl, true, false, some, List, [], ◌∷◌, String}
use xiaozhi_esp32_server_gol.Sentence.{
  Text, Unicode, is_ascii_digit, is_trimmed, is_sentence_end, trim, trim_front, trim_back,
  separators, is_digit_adjacent_colon, is_number_with_dot, digits_dot, find_last, is_number_prefix,
  count_digits_back, skip_blanks_back,
}
use xiaozhi_esp32_server_gol.Sentence.Trim.{ink}
use xiaozhi_esp32_server_gol.Sentence.Complete.{
  complete_loop, extract_complete, extract_complete_lem, flat,
}
use xiaozhi_esp32_server_gol.Sentence.Smart.{
  skip_blanks, numbered_next, split_within, split_beyond, find_split, skip_white, smart_loop,
  extract_smart,
}
use xiaozhi_esp32_server_gol.Sentence.Spoken.{extract_smart_lem, IsSentence}

abbrev codes : String → Text
codes String.[] = []
codes (String.◌∷◌ c s) = code c ∷ codes s

abbrev ascii : Unicode
ascii = record { is_digit = is_ascii_digit; is_space = λ c. is_trimmed c }

two_sentences :
    extract_complete ascii (codes "Hi. How are you? I")
    ≡ (codes "Hi." ∷ codes "How are you?" ∷ [], codes "I")
unfolding extract_complete complete_loop is_sentence_end trim trim_front trim_back
two_sentences = refl

extract_complete_lem_example :
    ink ascii.is_space (
      flat (extract_complete ascii (codes "Hi. Yes")).0
      ++ (extract_complete ascii (codes "Hi. Yes")).1)
    ≡ ink ascii.is_space (codes "Hi. Yes")
extract_complete_lem_example = (extract_complete_lem ascii (codes "Hi. Yes")).0

-- The colon of a time does not cut.
time_of_day :
    extract_smart ascii false 2 100 (codes "At 10:30 we go. Then")
    ≡ some (codes "At 10:30 we go." ∷ [], codes "Then")
unfolding extract_smart smart_loop skip_white find_split split_within split_beyond numbered_next
    skip_blanks trim trim_front trim_back separators is_digit_adjacent_colon
time_of_day = refl

numbers :
    (is_number_with_dot ascii (codes " 12.") ≡ true)
    × (find_last ascii false (codes "a. 12.") 6 ≡ some 1)
unfolding is_number_with_dot digits_dot trim trim_front trim_back find_last is_number_prefix
    count_digits_back skip_blanks_back separators is_digit_adjacent_colon
numbers = (refl, refl)

extract_smart_lem_example :
    (r : List Text × Text) × (extract_smart ascii true 2 100 (codes "Yes, we can. Or") ≡ some r)
    × All (IsSentence ascii true 2 100) r.0
    × Sublist (flat r.0) (codes "Yes, we can. Or")
extract_smart_lem_example = extract_smart_lem ascii true 2 100 (codes "Yes, we can. Or")
