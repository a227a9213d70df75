-- ===== src/WsThread/Closing.antt =====
-- The end of the loop: a signal, a failed service or a closed connection ends `run`.
use neof5client.Base.{
  ℕ, ◌≡◌, refl, ◌∙◌, Bool, true, false, not, ◌||◌, List, [], ◌∷◌, ◌++◌, Outcome, ok, arith, some,
  Bool-cases, inl, inr,
}
use neof5client.Base.Int.{ℤ, pos, negsuc, ltb_ℤ}
use neof5client.WsThread.{WsThread, Write, Handler, Round, Run, returned, running, run_loop}
use neof5client.WsThread.Drain.{AllSendable}
use neof5client.WsThread.Serve.{
  IsHandler, ExpectedRounds, no_signal, closes, Stand, is_over, after_round, stays_on, loop_result,
  result_of, stand,
}
use neof5client.WsThread.Loop.{run_loop-LoopRan}

-- What ends the loop: a signal before the round, a negative result, or an event that says that the
-- connection is closed or was not made.
abbrev pub stops : Round → Bool
stops r = not (no_signal r.signals) || ltb_ℤ r.n (pos 0) || closes r.events

-- An outcome of the loop that is a return.
abbrev pub Returns : {S : Type 0} → Outcome (Run S) → Type 0
Returns {S} o = (k : ℤ) × (s' : S) × (w' : WsThread) × (o ≡ ok (returned k s' w'))

abbrev Ends : Stand → List Round → Type 0
Ends st rs = (k : ℤ) × (loop_result st rs ≡ some k)

Ends-round :
    (st : Stand) (r : Round) (rs : List Round)
    → (is_over st r ≡ false → stays_on st r ≡ true → Ends (after_round st r) rs)
    → Ends st (r ∷ rs)
unfolding loop_result
Ends-round st r rs later = elim (Bool-cases (is_over st r)) [
  | inl over ↦ (pos 0, rw over refl)
  | inr go ↦ elim (Bool-cases (stays_on st r)) [
    | inr off ↦ (negsuc 0, rw (go, off) refl)
    | inl on ↦ let (k, e) = later go on in (k, rw (go, on) e)
  ]
]

stops-Ends :
    (before : List Round) (r next : Round) (after : List Round) (st : Stand)
    → stops r ≡ true
    → Ends st (before ++ r ∷ next ∷ after)
stops-Ends [] r next after st stop = Ends-round st r (next ∷ after) (λ go on.
    Ends-round (after_round st r) next after
      (λ go_on still. absurd (ground (arith, stop, go_on, go))))
stops-Ends (b ∷ bs) r next after st stop =
    Ends-round st b (bs ++ r ∷ next ∷ after)
      (λ go on. stops-Ends bs r next after (after_round st b) stop)

module _ {S : Type 0} (write : Write) (handler : Handler S) (Known : S → Type 0)
    (Expected : List ℕ → Type 0) (Reply : List ℕ → List (List ℕ) → Type 0)
    (law : IsHandler handler Known Expected Reply ⊥) where
  -- For a handler that answers the expected messages with texts of at most 6000 bytes with no byte 0
  -- and sends nothing when the connection is lost, a queue of such texts, and expected messages that
  -- come when there is a socket: if a signal was caught before a round, the service failed in it, or
  -- it delivered a closed connection or a failed one, and another round follows, then the loop of
  -- `run` has returned by then, whatever the rounds before were.
  pub run_loop-returned :
      (before : List Round) (r next : Round) (after : List Round) (n : ℤ) (s : S) (w : WsThread)
      → Known s
      → ExpectedRounds Expected w.has_socket (before ++ r ∷ next ∷ after)
      → AllSendable w.send_queue
      → stops r ≡ true
      → Returns (run_loop write handler n (before ++ r ∷ next ∷ after) s w)
  run_loop-returned before r next after n s w known x good stop =
      let rounds = before ++ r ∷ next ∷ after in
      elim (run_loop-LoopRan write handler Known Expected Reply ⊥ law n rounds s w known x good) [
        | inr (bad, why) ↦ absurd why
        | inl (res, runs, ran) ↦
            let (k, ends) = stops-Ends before r next after (stand n w) stop in
            as_returned res runs (ran.result ∙ ends)
      ]
    where
      as_returned :
          {o : Outcome (Run S)} {k : ℤ} (res : Run S)
          → o ≡ ok res
          → result_of res ≡ some k
          → Returns o
      as_returned (returned m s' w') runs e = (m, s', w', runs)
      as_returned (running s' w') runs e = cc
