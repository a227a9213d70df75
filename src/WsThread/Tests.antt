-- ===== src/WsThread/Tests.antt =====
-- Runs of the queue and of the loop.
use neof5client.Base.{
  ℕ, suc, Bool, ◌≡◌, refl, true, false, List, [], ◌∷◌, ◌++◌, ok, arith, length, inl,
}
use neof5client.Base.Int.{pos}
use neof5client.WsThread.{
  WsThread, Write, Handler, Round, Run, client_established, client_writeable, client_receive,
  closed, callback_func, run, run_loop, send_texts, new_thread, WsProtocol,
}
use neof5client.WsThread.Drain.{Sendable, sent_in_order}
use neof5client.WsThread.Closing.{Returns, run_loop-returned}
use neof5client.WsThread.Serve.{IsHandler, OrFails, Ran}
use neof5client.WsThread.Loop.{run-Ran}

abbrev accepting : Write
accepting sent bytes = pos (length bytes)

abbrev greeting : List ℕ
greeting = b'h' ∷ b'i' ∷ []

-- A handler that answers each message with one text, and counts them.
abbrev polite : Handler ℕ
polite = record {
  on_open = λ s. ok ([], s);
  on_error = λ s. ok ([], s);
  on_close = λ s. ok ([], s);
  on_message = λ text s. ok ((greeting, true) ∷ [], suc s);
}

-- It expects any message.
abbrev Anything : List ℕ → Type 0
Anything text = Unit {0}

greeting-Sendable : Sendable greeting
greeting-Sendable = (omega arith, ((λ e. ground (arith, e)), ((λ e. ground (arith, e)), tt)))

abbrev NothingKnown : ℕ → Type 0
NothingKnown s = Unit {0}

-- It says the greeting.
abbrev Greets : List ℕ → List (List ℕ) → Type 0
Greets text ts = ts ≡ greeting ∷ []

polite-IsHandler : IsHandler polite NothingKnown Anything Greets ⊥
polite-IsHandler = record {
  error_answers = λ s known. ([], s, refl, tt, refl, tt);
  close_answers = λ s known. ([], s, refl, tt, refl, tt);
  message_answers =
      λ text s known x. inl ((greeting, true) ∷ [], suc s, refl, (greeting-Sendable, tt), refl, tt);
}

abbrev connected : WsThread
connected = record (new_thread false) { has_socket = true }

sent_in_order_example :
    (w1 : WsThread) × (w' : WsThread) × (send_texts connected
        ((greeting, false) ∷ (greeting, true) ∷ [])
      ≡ ok w1)
    × (callback_func accepting polite client_writeable 3 w1 ≡ ok (pos 0, 3, w'))
    × (w'.send_queue ≡ [])
    × (w'.handed ≡ [] ++ ([] ++ (greeting ∷ greeting ∷ [])))
sent_in_order_example =
    sent_in_order accepting polite 3 connected ((greeting, false) ∷ (greeting, true) ∷ [])
      (λ handed bytes. refl) tt (greeting-Sendable, (greeting-Sendable, tt)) (inl refl)

abbrev two_rounds : List Round
two_rounds =
    record { signals = []; events = client_established ∷ []; n = pos 0; connects = true }
    ∷ record {
      signals = [];
      events = client_receive greeting ∷ client_writeable ∷ [];
      n = pos 0;
      connects = true;
    }
    ∷ []

abbrev any_context : List WsProtocol → Bool
any_context protocols = true

run-Ran_example : OrFails ⊥ (run accepting polite any_context two_rounds 0 (new_thread false)) (
    (r : Run ℕ) × (run accepting polite any_context two_rounds 0 (new_thread false) ≡ ok r)
    × Ran Greets true two_rounds (new_thread false) r)
run-Ran_example =
    run-Ran accepting polite NothingKnown Anything Greets ⊥ polite-IsHandler any_context two_rounds
      0 (new_thread false) tt ((tt, tt), (((refl, tt), (tt, tt)), tt)) tt

abbrev last_round : Round
last_round = record { signals = []; events = closed ∷ []; n = pos 0; connects = false }

abbrev next_round : Round
next_round = record { signals = []; events = []; n = pos 0; connects = false }

run_loop-returned_example : Returns (
    run_loop accepting polite
      (pos 0)
      (two_rounds ++ last_round ∷ next_round ∷ [])
      0
      (new_thread false))
run_loop-returned_example =
    run_loop-returned accepting polite NothingKnown Anything Greets polite-IsHandler two_rounds
      last_round next_round [] (pos 0) 0 (new_thread false) tt
      ((tt, tt), (((refl, tt), (tt, tt)), ((tt, tt), (tt, tt)))) tt refl
