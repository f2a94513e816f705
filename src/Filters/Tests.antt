-- ===== src/Filters/Tests.antt =====
-- The filters' theorems at small inputs.
use mochi_rkv.Prelude.{◌≡◌, refl, false, [], ◌∷◌}
use mochi_rkv.Bytes.Order.{lex_lt}
use mochi_rkv.Filters.{prefix_check, prefix_should_stop}
use mochi_rkv.Filters.Laws.{prefix_should_stop_sound}

prefix_should_stop_sound_example : prefix_check (1 ∷ []) (2 ∷ 0 ∷ []) ≡ false
unfolding prefix_should_stop lex_lt
prefix_should_stop_sound_example = prefix_should_stop_sound (1 ∷ []) (2 ∷ []) (2 ∷ 0 ∷ []) refl refl
