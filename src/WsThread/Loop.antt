-- ===== src/WsThread/Loop.antt =====
-- The loop that serves the library: what `run` answers and sends for the rounds of the library.
use neof5client.Base.{
  ℕ, ◌≡◌, refl, sym, subst, ◌∙◌, Bool, true, false, ◌||◌, List, [], ◌∷◌, append-nil, if◌then◌else◌,
  Outcome, ok, arith, Bool-cases, ◌⊎◌, inl, inr, some,
}
use neof5client.Base.Int.{ℤ, pos, negsuc, ltb_ℤ}
use neof5client.WsThread.{
  WsThread, Write, Handler, Event, client_established, client_connection_error, closed,
  client_receive, client_writeable, confirm_extension_supported, other, handled, callback_func,
  Round, deliver, Run, returned, running, run_loop, run, catch_signals, WsProtocol, protocols,
}
use neof5client.WsThread.Drain.{AllSendable, texts, send_texts-Queued, write_loop_lem}
use neof5client.WsThread.Serve.{
  Answers, OrFails, IsHandler, ExpectedEvent, ExpectedEvents, ExpectedRounds, is_end, gets_socket,
  Stand, is_over, after_round, stays_on, served_rounds, loop_result, events_of, Said, Extends,
  Extends-same, Extends-quiet, Extends-trans, Extends-send, Extends-from, signals-Caught, thread,
  result_of, stand, LoopRan, Ran, Served,
}

stand-eq :
    (n : ℤ) (w : WsThread) (st : Stand)
    → n ≡ st.n
    → w.was_closed ≡ st.shut
    → w.force_exit ≡ st.forced
    → w.has_socket ≡ st.socket
    → stand n w ≡ st
stand-eq n w st a b c d = rw (a, b, c, d) refl

module _ {S : Type 0} (Reply : List ℕ → List (List ℕ) → Type 0) where
  -- A run by the rounds that are served.
  by_rounds :
      (st : Stand) (rs served : List Round) (w : WsThread) (res : Run S)
      → served_rounds st rs ≡ served
      → result_of res ≡ loop_result st rs
      → Extends Reply (events_of served) w (thread res)
      → LoopRan Reply st rs w res
  by_rounds st rs served w res same result ext = record {
    result = result;
    extends = subst (λ (l : List Round). Extends Reply (events_of l) w (thread res)) (sym same) ext;
  }

  nothing-LoopRan :
      (st : Stand) (w : WsThread) (s : S)
      → Extends Reply [] w w
      → LoopRan Reply st [] w (running s w)
  unfolding served_rounds loop_result
  nothing-LoopRan st w s ext = record { result = refl; extends = ext }

  over-LoopRan :
      (st : Stand) (r : Round) (rs : List Round) (w : WsThread) (res : Run S)
      → is_over st r ≡ true
      → result_of res ≡ some (pos 0)
      → Extends Reply [] w (thread res)
      → LoopRan Reply st (r ∷ rs) w res
  unfolding served_rounds loop_result
  over-LoopRan st r rs w res over result ext =
      by_rounds st (r ∷ rs) [] w res (rw over refl) (rw over result) ext

  round-LoopRan :
      (st : Stand) (r : Round) (rs : List Round) (w w1 : WsThread) (res : Run S)
      → is_over st r ≡ false
      → stays_on st r ≡ true
      → Extends Reply r.events w w1
      → LoopRan Reply (after_round st r) rs w1 res
      → LoopRan Reply st (r ∷ rs) w res
  unfolding served_rounds loop_result
  round-LoopRan st r rs w w1 res go on ext ran =
      by_rounds st (r ∷ rs) (r ∷ served_rounds (after_round st r) rs) w res (rw (go, on) refl)
        (rw (go, on) ran.result)
        (Extends-trans Reply r.events (events_of (served_rounds (after_round st r) rs)) w w1
          (thread res) ext ran.extends)

  failed-LoopRan :
      (st : Stand) (r : Round) (rs : List Round) (w : WsThread) (res : Run S)
      → is_over st r ≡ false
      → stays_on st r ≡ false
      → result_of res ≡ some (negsuc 0)
      → Extends Reply r.events w (thread res)
      → LoopRan Reply st (r ∷ rs) w res
  unfolding served_rounds loop_result
  failed-LoopRan st r rs w res go off result ext =
      by_rounds st (r ∷ rs) (r ∷ []) w res (rw (go, off) refl) (rw (go, off) result) (
        subst (λ (es : List Event). Extends Reply es w (thread res)) (sym (append-nil r.events))
          ext)

  LoopRan-from :
      (st : Stand) (rs : List Round) (v w : WsThread) (res : Run S)
      → v.handed ≡ w.handed
      → v.send_queue ≡ w.send_queue
      → LoopRan Reply st rs w res
      → LoopRan Reply st rs v res
  LoopRan-from st rs v w res handed queue ran = record {
    result = ran.result;
    extends =
        Extends-from Reply (events_of (served_rounds st rs)) v w (thread res) handed queue
          ran.extends;
  }

module _ {S : Type 0} (write : Write) (handler : Handler S) (Known : S → Type 0)
    (Expected : List ℕ → Type 0) (Reply : List ℕ → List (List ℕ) → Type 0) (Fails : Type 0)
    (law : IsHandler handler Known Expected Reply Fails) where
  -- A call of the handler for an event, for which its texts are said.
  handled-Served :
      (e : Event) (Ok : List (List ℕ) → Type 0) (call : Outcome (List (List ℕ × Bool) × S))
      (w : WsThread)
      → ((ts : List (List ℕ)) → Ok ts → Said Reply e ts × ((w.has_socket ≡ true) ⊎ (ts ≡ [])))
      → AllSendable w.send_queue
      → Answers Known Ok call
      → (n : ℤ) × (s' : S) × (w' : WsThread) × (handled write handler call w ≡ ok (n, s', w'))
        × Extends Reply (e ∷ []) w w'
        × (w'.was_closed ≡ w.was_closed)
        × (w'.force_exit ≡ w.force_exit)
        × (w'.has_socket ≡ w.has_socket)
        × Known s'
  handled-Served e Ok call w fits good (calls, s', answers, more, reply, known) =
      let (says, can) = fits (texts calls) reply in
      let (w', sends, q) = send_texts-Queued w calls can in
      (
        pos 0,
        s',
        w',
        ground (arith, answers, sends),
        Extends-send Reply e w w' calls q good more says,
        q.same_closed,
        q.same_forced,
        q.same_socket,
        known,
      )

  quiet :
      (e : Event) (w : WsThread)
      → Said Reply e []
      → is_end e ≡ false
      → AllSendable w.send_queue
      → Served Reply (e ∷ []) w w
  quiet e w says goes_on good = record {
    extends = Extends-quiet Reply e w w says good refl;
    closed_by = ground (arith, goes_on);
    same_forced = refl;
    same_socket = refl;
  }

  callback-Served :
      (e : Event) (s : S) (w : WsThread)
      → Known s
      → ExpectedEvent Expected w.has_socket e
      → AllSendable w.send_queue
      → OrFails Fails (callback_func write handler e s w) (
          (n : ℤ) × (s' : S) × (w' : WsThread) × (callback_func write handler e s w
            ≡ ok (n, s', w'))
          × Served Reply (e ∷ []) w w'
          × Known s')
  unfolding callback_func
  callback-Served client_established s w known x good =
      inl (pos 0, s, w, refl, quiet client_established w refl refl good, known)
  callback-Served confirm_extension_supported s w known x good =
      inl (pos 1, s, w, refl, quiet confirm_extension_supported w refl refl good, known)
  callback-Served other s w known x good =
      inl (pos 0, s, w, refl, quiet other w refl refl good, known)
  callback-Served client_connection_error s w known x good =
      let w1 = record w { was_closed = true } in
      let (n, s', w', run, ext, closed_same, forced, socket, known') =
        handled-Served client_connection_error (λ ts. ts ≡ []) (handler.on_error s) w1
          (λ ts none_said. (none_said, inr none_said)) good (law.error_answers s known) in
      inl (
        n,
        s',
        w',
        run,
        record {
          extends = Extends-from Reply (client_connection_error ∷ []) w w1 w' refl refl ext;
          closed_by = closed_same;
          same_forced = forced;
          same_socket = socket;
        },
        known',
      )
  callback-Served closed s w known x good =
      let w1 = record w { was_closed = true } in
      let (n, s', w', run, ext, closed_same, forced, socket, known') =
        handled-Served closed (λ ts. ts ≡ []) (handler.on_close s) w1
          (λ ts none_said. (none_said, inr none_said)) good (law.close_answers s known) in
      inl (
        n,
        s',
        w',
        run,
        record {
          extends = Extends-from Reply (closed ∷ []) w w1 w' refl refl ext;
          closed_by = closed_same;
          same_forced = forced;
          same_socket = socket;
        },
        known',
      )
  callback-Served (client_receive text) s w known (socket_there, x) good =
      elim (law.message_answers text s known x) [
        | inr (bad, why) ↦ inr (rw bad refl, why)
        | inl answer ↦
            let (n, s', w', run, ext, closed_same, forced, socket, known') =
              handled-Served (client_receive text) (Reply text) (handler.on_message text s) w
                (λ ts reply. (reply, inl socket_there)) good answer in
            inl (
              n,
              s',
              w',
              run,
              record {
                extends = ext;
                closed_by = closed_same;
                same_forced = forced;
                same_socket = socket;
              },
              known',
            )
      ]
  callback-Served client_writeable s w known x good =
      let (all, queue, handed, run, kept, left, done) =
        write_loop_lem write w.send_queue w.handed good in
      let w' = record w { send_queue = queue; handed = handed; wanted = false } in
      inl (
        if all then pos 0 else negsuc 0,
        s,
        w',
        rw run refl,
        record {
          extends = Extends-quiet Reply client_writeable w w' refl left kept;
          closed_by = refl;
          same_forced = refl;
          same_socket = refl;
        },
        known,
      )

  deliver-Served :
      (es : List Event) (s : S) (w : WsThread)
      → Known s
      → ExpectedEvents Expected w.has_socket es
      → AllSendable w.send_queue
      → OrFails Fails (deliver write handler es s w) (
          (s' : S) × (w' : WsThread) × (deliver write handler es s w ≡ ok (s', w'))
          × Served Reply es w w'
          × Known s')
  unfolding deliver
  deliver-Served [] s w known x good = inl (
    s,
    w,
    refl,
    record {
      extends = Extends-same Reply w w good refl;
      closed_by = refl;
      same_forced = refl;
      same_socket = refl;
    },
    known,
  )
  deliver-Served (e ∷ es) s w known (x, xs) good = elim (callback-Served e s w known x good) [
    | inr (bad, why) ↦ inr (rw bad refl, why)
    | inl (n, s1, w1, run1, a, known1) ↦
        elim (deliver-Served es s1 w1 known1
          (subst (λ (k : Bool). ExpectedEvents Expected k es) (sym a.same_socket) xs)
          a.extends.sendable) [
            | inr (bad, why) ↦ inr (rw run1 bad, why)
            | inl (s2, w2, run2, b, known2) ↦
                let ca = a.closed_by in
                let cb = b.closed_by in
                inl (
                  s2,
                  w2,
                  ground (arith, run1, run2),
                  record {
                    extends = Extends-trans Reply (e ∷ []) es w w1 w2 a.extends b.extends;
                    closed_by = ground (arith, ca, cb);
                    same_forced = b.same_forced ∙ a.same_forced;
                    same_socket = b.same_socket ∙ a.same_socket;
                  },
                  known2,
                )
          ]
  ]

  pub run_loop-LoopRan :
      (n : ℤ) (rs : List Round) (s : S) (w : WsThread)
      → Known s
      → ExpectedRounds Expected w.has_socket rs
      → AllSendable w.send_queue
      → OrFails Fails (run_loop write handler n rs s w) (
          (r : Run S) × (run_loop write handler n rs s w ≡ ok r) × LoopRan Reply (stand n w) rs w r)
  unfolding run_loop
  run_loop-LoopRan n [] s w known x good =
      inl (
        running s w,
        refl,
        nothing-LoopRan Reply (stand n w) w s (Extends-same Reply w w good refl),
      )
  run_loop-LoopRan n (r ∷ rs) s w known (x, xs) good =
      let w0 = catch_signals r.signals w in
      let c = signals-Caught r.signals w in
      let forces = c.forces in
      let closed0 = c.same_closed in
      let good0 = subst AllSendable (sym c.same_queue) good in
      let ext0 =
        Extends-from Reply [] w w0 w0 (sym c.same_handed) (sym c.same_queue)
          (Extends-same Reply w0 w0 good0 refl) in
      elim (Bool-cases (is_over (stand n w) r)) [
        | inl over ↦ inl (
          returned (pos 0) s w0,
          ground (arith, over, forces, closed0),
          over-LoopRan Reply (stand n w) r rs w (returned (pos 0) s w0) over refl ext0,
        )
        | inr go ↦
            elim (deliver-Served r.events s w0 known
              (subst (λ (k : Bool). ExpectedEvents Expected k r.events) (sym c.same_socket) x)
              good0) [
                | inr (bad, why) ↦ inr (ground (arith, go, forces, closed0, bad), why)
                | inl (s1, w1, served, did, known1) ↦
                    let ext1 = Extends-trans Reply [] r.events w w0 w1 ext0 did.extends in
                    let closed1 = did.closed_by in
                    let forced1 = did.same_forced in
                    let socket1 = did.same_socket ∙ c.same_socket in
                    elim (Bool-cases (ltb_ℤ r.n (pos 0) || w1.has_socket)) [
                      | inl again ↦
                          let here : w1.has_socket ≡ w.has_socket || gets_socket r =
                            ground (arith, again, socket1) in
                          let next : stand r.n w1 ≡ after_round (stand n w) r =
                            stand-eq r.n w1 (after_round (stand n w) r) refl
                              (ground (arith, closed1, closed0)) (ground (arith, forced1, forces))
                              here in
                          elim (run_loop-LoopRan r.n rs s1 w1 known1
                            (subst (λ (k : Bool). ExpectedRounds Expected k rs) (sym here) xs)
                            ext1.sendable) [
                              | inr (bad, why) ↦
                                  inr (ground (arith, go, forces, closed0, served, again, bad), why)
                              | inl (res, run, ran) ↦ inl (
                                res,
                                ground (arith, go, forces, closed0, served, again, run),
                                round-LoopRan Reply (stand n w) r rs w w1 res go
                                    (ground (arith, again, socket1)) ext1
                                    (subst (λ (st : Stand). LoopRan Reply st rs w1 res) next ran),
                              )
                            ]
                      | inr connect ↦ elim (Bool-cases r.connects) [
                        | inl made ↦
                            let w2 = record w1 { has_socket = true } in
                            let here : true ≡ w.has_socket || gets_socket r =
                              ground (arith, connect, made, socket1) in
                            let next : stand r.n w2 ≡ after_round (stand n w) r =
                              stand-eq r.n w2 (after_round (stand n w) r) refl
                                (ground (arith, closed1, closed0)) (ground (arith, forced1, forces))
                                here in
                            elim (run_loop-LoopRan r.n rs s1 w2 known1
                              (subst (λ (k : Bool). ExpectedRounds Expected k rs) (sym here) xs)
                              ext1.sendable) [
                                | inr (bad, why) ↦ inr (
                                  ground (arith, go, forces, closed0, served, connect, made, bad),
                                  why,
                                )
                                | inl (res, run, ran) ↦ inl (
                                  res,
                                  ground (arith, go, forces, closed0, served, connect, made, run),
                                  round-LoopRan Reply (stand n w) r rs w w1 res go
                                      (ground (arith, connect, made, socket1)) ext1
                                      (LoopRan-from Reply (after_round (stand n w) r) rs w1 w2 res
                                        refl refl
                                        (subst (λ (st : Stand). LoopRan Reply st rs w2 res) next
                                          ran)),
                                )
                              ]
                        | inr failed ↦ inl (
                          returned (negsuc 0) s1 w1,
                          ground (arith, go, forces, closed0, served, connect, failed),
                          failed-LoopRan Reply (stand n w) r rs w (returned (negsuc 0) s1 w1) go
                              (ground (arith, connect, failed, socket1)) refl ext1,
                        )
                      ]
                    ]
              ]
      ]

  -- For a handler that answers the expected messages, with texts of at most 6000 bytes with no byte
  -- 0, or does something undefined for a reason, and that sends nothing when the connection is lost;
  -- for a queue of such texts, and expected messages that come when there is a socket: `run` returns
  -- or waits for more rounds, with the result that the signals, the rounds and the answer on the
  -- context give, or it is undefined, and there is the reason of the handler. What went to
  -- `libwebsocket_write` with what is still queued after it is what it was before, then the handler's
  -- replies to the messages of all rounds that the loop had to serve, in the order of the messages.
  pub run-Ran :
      (create_context : List WsProtocol → Bool) (rounds : List Round) (s : S) (w : WsThread)
      → Known s
      → ExpectedRounds Expected w.has_socket rounds
      → AllSendable w.send_queue
      → OrFails Fails (run write handler create_context rounds s w) (
          (r : Run S) × (run write handler create_context rounds s w ≡ ok r)
          × Ran Reply (create_context protocols) rounds w r)
  unfolding run
  run-Ran create_context rounds s w known x good = elim (Bool-cases (create_context protocols)) [
    | inl made ↦
        let w1 = record w { has_context = true } in
        elim (run_loop-LoopRan (pos 0) rounds s w1 known x good) [
          | inr (bad, why) ↦ inr (ground (arith, made, bad), why)
          | inl (res, run, ran) ↦ inl (
            res,
            ground (arith, made, run),
            subst (λ (created : Bool). Ran Reply created rounds w res) (sym made)
                (record {
                  result = ran.result;
                  extends =
                      Extends-from Reply (events_of (served_rounds (stand (pos 0) w) rounds)) w w1
                        (thread res) refl refl ran.extends;
                }),
          )
        ]
    | inr failed ↦ inl (
      returned (pos 1) s w,
      ground (arith, failed),
      subst (λ (created : Bool). Ran Reply created rounds w (returned (pos 1) s w)) (sym failed)
          (record { result = refl; extends = Extends-same Reply w w good refl }),
    )
  ]
