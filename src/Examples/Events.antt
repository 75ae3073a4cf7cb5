-- ===== src/Examples/Events.antt =====
-- A feed of numbers that keeps two.
use orchd.Prelude.{ℕ, ◌≡◌, refl, List, [], ◌∷◌}
use orchd.Prelude.Lists.{reverse}
use orchd.Prelude.Int.{pos}
use orchd.Events.Sink.{new_memory_sink, emit, emit_all, recent}

abbrev three : List ℕ
three = 1 ∷ 2 ∷ 3 ∷ []

-- The two newest are kept.
newest_two : recent (pos 5) (emit_all three (new_memory_sink (pos 2))) ≡ 3 ∷ 2 ∷ []
unfolding recent emit_all emit new_memory_sink reverse
newest_two = refl
