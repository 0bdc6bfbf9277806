-- ===== src/Proximity/Examples.antt =====
-- Runs and instances of the merge of position lists.
use paradedb.Common.{ℕ, ◌≡◌, refl, ltb, true, false, List, [], ◌∷◌, map, length, keep, All, arith}
use paradedb.Proximity.Positions.{in_order, any_order, distance, is_near, prox_iter, prox_match}
use paradedb.Proximity.Positions.Complete.{has_near, prox_iter_lem, prox_match_lem}

abbrev left : List ℕ
left = 2 ∷ 9 ∷ 20 ∷ []

abbrev right : List ℕ
right = 3 ∷ 7 ∷ 21 ∷ []

-- One word may stand between the two words, in either order.
two_matches : prox_iter (any_order 1) left right ≡ (2, 3) ∷ (9, 7) ∷ (20, 21) ∷ []
unfolding prox_iter
two_matches = refl

prox_iter_lem_example :
    (map (λ p. p.0) (prox_iter (in_order 1) left right) ≡ keep (has_near (in_order 1) right) left)
    × All (λ p. is_near (in_order 1) p.0 p.1 ≡ true) (prox_iter (in_order 1) left right)
unfolding distance
prox_iter_lem_example =
    prox_iter_lem (in_order 1) left right (omega arith, omega arith, omega arith, omega arith)

prox_match_lem_example :
    ((prox_match (in_order 1) true left right 0).0
      ≡ ltb 0 (length (keep (has_near (in_order 1) right) left)))
    × ((prox_match (in_order 1) false left right 0).0
        ≡ (prox_match (in_order 1) true left right 0).0)
unfolding distance
prox_match_lem_example =
    prox_match_lem (in_order 1) left right 0 (omega arith, omega arith, omega arith, omega arith)
