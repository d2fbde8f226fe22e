-- ===== src/Tests/Delegates.antt =====
-- Delegates.
use cpp_essence.Prelude.{ℕ, ◌≡◌, List, [], ◌∷◌, arith}
use cpp_essence.Delegate.{empty_delegate, try_invoke}
use cpp_essence.Delegate.History.{Move, subscribe, join, unsubscribe, moves, moves-promised}

-- Functions are numbers here.
abbrev history : List (Move ℕ)
history =
    subscribe 10
    ∷ join ((1, 20) ∷ (2, 30) ∷ [])
    ∷ unsubscribe 7
    ∷ unsubscribe 7
    ∷ subscribe 10
    ∷ unsubscribe 40
    ∷ []

moves-promised_example : try_invoke (moves history (5, empty_delegate)).1 ≡ 10 ∷ 30 ∷ 10 ∷ []
moves-promised_example = moves-promised history 5 (omega arith)
