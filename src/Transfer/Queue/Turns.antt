-- ===== src/Transfer/Queue/Turns.antt =====
-- Predicates on one of the workers, while they take turns.
use lanxfer.Base.{ℕ, zero, suc, List, [], ◌∷◌, ◌++◌, length}
use lanxfer.Transfer.Queue.{Manager}
use lanxfer.Transfer.Queue.Worker.{Worker}
use lanxfer.Transfer.Queue.Run.{turn}

-- `P` holds of the worker with number `i`.
abbrev pub At : ℕ → (Worker → Type 0) → List Worker → Type 0
At i P [] = ⊥
At zero P (w ∷ ws) = P w
At (suc i) P (w ∷ ws) = At i P ws

pub At-append : (i : ℕ) (P : Worker → Type 0) (ws vs : List Worker) → At i P ws → At i P (ws ++ vs)
At-append zero P [] vs h = elim h [ ]
At-append (suc i) P [] vs h = elim h [ ]
At-append zero P (w ∷ ws) vs h = h
At-append (suc i) P (w ∷ ws) vs h = At-append i P ws vs h

pub At-length :
    (P : Worker → Type 0) (ws : List Worker) (w : Worker) → P w → At (length ws) P (ws ++ w ∷ [])
At-length P [] w h = h
At-length P (v ∷ ws) w h = At-length P ws w h

pub At-map :
    (P Q : Worker → Type 0)
    → ((w : Worker) → P w → Q w)
    → (i : ℕ) (ws : List Worker) → At i P ws
    → At i Q ws
At-map P Q f zero [] h = elim h [ ]
At-map P Q f (suc i) [] h = elim h [ ]
At-map P Q f zero (w ∷ ws) h = f w h
At-map P Q f (suc i) (w ∷ ws) h = At-map P Q f i ws h

module _ (P Q : Worker → Type 0) (f : Worker → Manager → Worker × Manager) where
  pub turn-own :
      ((w : Worker) (m : Manager) → P w → Q (f w m).0)
      → (i : ℕ) (ws : List Worker) (m : Manager) → At i P ws
      → At i Q (turn f i ws m).0
  unfolding turn
  turn-own k zero [] m h = elim h [ ]
  turn-own k (suc i) [] m h = elim h [ ]
  turn-own k zero (w ∷ ws) m h = k w m h
  turn-own k (suc i) (w ∷ ws) m h = turn-own k i ws m h

pub turn-any :
    (P : Worker → Type 0) (f : Worker → Manager → Worker × Manager)
    → ((w : Worker) (m : Manager) → P w → P (f w m).0)
    → (i j : ℕ) (ws : List Worker) (m : Manager) → At i P ws
    → At i P (turn f j ws m).0
unfolding turn
turn-any P f k zero zero [] m h = elim h [ ]
turn-any P f k zero (suc j) [] m h = elim h [ ]
turn-any P f k (suc i) zero [] m h = elim h [ ]
turn-any P f k (suc i) (suc j) [] m h = elim h [ ]
turn-any P f k zero zero (w ∷ ws) m h = k w m h
turn-any P f k zero (suc j) (w ∷ ws) m h = h
turn-any P f k (suc i) zero (w ∷ ws) m h = h
turn-any P f k (suc i) (suc j) (w ∷ ws) m h = turn-any P f k i j ws m h
