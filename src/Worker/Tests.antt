-- ===== src/Worker/Tests.antt =====
-- The worker's delays on a few turns.
use qdplay.Prelude.{◌≡◌, refl, true, List, [], ◌∷◌}
use qdplay.Posix.{done, failed, eio, ebusy}
use qdplay.RunSession.{open_from}
use qdplay.Worker.{Turn, Poll, wait_for_start, worker_start}
use qdplay.Worker.Backoff.{sleeps_of, count, worker_start-count}

abbrev polls : List Poll
polls =
    record { has_source = true; status = done 0 }
    ∷ record { has_source = true; status = done 1 }
    ∷ []

-- The gadget cannot be presented; a session is completed; a session fails.
abbrev no_gadget : Turn
no_gadget = record {
  mode = failed eio;
  opens = λ n. done 5;
  polls = polls;
  session_result = done 0;
}

abbrev good_turn : Turn
good_turn = record { mode = done 0; opens = λ n. done 5; polls = polls; session_result = done 0 }

abbrev lost_turn : Turn
lost_turn = record {
  mode = done 0;
  opens = λ n. done 5;
  polls = polls;
  session_result = failed ebusy;
}

abbrev history : List Turn
history = no_gadget ∷ no_gadget ∷ good_turn ∷ lost_turn ∷ lost_turn ∷ []

worker_start-count_example : sleeps_of (worker_start history) ≡ count history 0
worker_start-count_example = worker_start-count history

sleeps_history : count history 0 ≡ 250000 ∷ 500000 ∷ 250000 ∷ 500000 ∷ []
unfolding count wait_for_start open_from
sleeps_history = refl
