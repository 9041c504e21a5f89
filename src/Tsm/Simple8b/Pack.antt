-- ===== src/Tsm/Simple8b/Pack.antt =====
-- The words of internal/tsm/simple8b.go as an encoder fills them: packing.
use tsm2arc.Prelude.{ℕ, ◌+◌, ◌*◌, ◌^◌, List, [], ◌∷◌}
use tsm2arc.Tsm.Simple8b.{selector}

-- Values of `bits` bits each, the first in the lowest bits.
unfoldable pub pack : ℕ → List ℕ → ℕ
pack bits [] = 0
pack bits (v ∷ vs) = v + 2 ^ bits * pack bits vs

-- The word of a selector and its values.
unfoldable pub word : ℕ → List ℕ → ℕ
unfolding pack
word sel vs = sel * 2 ^ 60 + pack (selector sel).1 vs
