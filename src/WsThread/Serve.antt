-- ===== src/WsThread/Serve.antt =====
-- What a run over the rounds of the library does: the rounds it serves, and the texts that belong to them.
use neof5client.Base.{
  ℕ, ◌≡◌, refl, sym, ap, subst, ◌∙◌, Bool, true, false, ◌||◌, ◌&&◌, List, [], ◌∷◌, ◌++◌, append-nil,
  append_assoc, if◌then◌else◌, Outcome, undefined, ok, ◌⊎◌, arith, not, Option, none, some,
}
use neof5client.Base.Int.{ℤ, pos, negsuc, ltb_ℤ}
use neof5client.WsThread.{
  WsThread, Handler, Event, client_connection_error, closed, client_receive, Round, Run, returned,
  running, catch_signals, sighandler,
}
use neof5client.WsThread.Drain.{AllSendable, AllSendable-append, texts, Queued}

-- Everything that was given to `sendText`, in order: what went to `libwebsocket_write`, and what
-- is still queued.
abbrev pub history : WsThread → List (List ℕ)
history w = w.handed ++ w.send_queue

-- A call that returns, with texts that can be sent and that are a reply, and that keeps what is
-- known of the handler's members.
abbrev pub Answers :
    {S : Type 0}
    → (S → Type 0)
    → (List (List ℕ) → Type 0)
    → Outcome (List (List ℕ × Bool) × S)
    → Type 0
Answers {S} Known Reply o =
    (calls : List (List ℕ × Bool)) × (s' : S) × (o ≡ ok (calls, s'))
    × AllSendable (texts calls)
    × Reply (texts calls)
    × Known s'

-- What is said of an outcome, or it is undefined and the reason for that is there.
abbrev pub OrFails : {A : Type 0} → Type 0 → Outcome A → Type 0 → Type 0
OrFails Fails o T = T ⊎ ((o ≡ undefined) × Fails)

-- What the loop needs of a handler, for members of which `Known` says what is known: its calls
-- return and keep that, for the messages that are expected, and `Reply` says which texts may answer
-- a message; or the call for a message is undefined, with the reason `Fails`. It sends nothing when
-- the connection is lost.
pub record IsHandler {S : Type 0} (handler : Handler S) (Known : S → Type 0)
    (Expected : List ℕ → Type 0) (Reply : List ℕ → List (List ℕ) → Type 0) (Fails : Type 0)
    : Type 0 where
  pub error_answers : (s : S) → Known s → Answers Known (λ ts. ts ≡ []) (handler.on_error s)
  pub close_answers : (s : S) → Known s → Answers Known (λ ts. ts ≡ []) (handler.on_close s)
  pub message_answers :
      (text : List ℕ) (s : S)
      → Known s
      → Expected text
      → OrFails Fails
          (handler.on_message text s)
          (Answers Known (Reply text) (handler.on_message text s))

-- Only expected messages are received, and only once there is a socket.
abbrev pub ExpectedEvent : (List ℕ → Type 0) → Bool → Event → Type 0
ExpectedEvent Expected socket (client_receive text) = (socket ≡ true) × Expected text
ExpectedEvent Expected socket e = Unit {0}

abbrev pub ExpectedEvents : (List ℕ → Type 0) → Bool → List Event → Type 0
ExpectedEvents Expected socket [] = Unit {0}
ExpectedEvents Expected socket (e ∷ es) =
    ExpectedEvent Expected socket e × ExpectedEvents Expected socket es

-- What ends the loop: a signal, and an event that says that the connection is closed or was not
-- made.
abbrev pub no_signal : List ℤ → Bool
no_signal [] = true
no_signal (sig ∷ sigs) = false

abbrev pub is_end : Event → Bool
is_end closed = true
is_end client_connection_error = true
is_end e = false

abbrev pub closes : List Event → Bool
closes [] = false
closes (e ∷ es) = is_end e || closes es

-- Before a round: the last result of the service, and whether the connection was closed, a signal
-- was caught, and there is a socket.
pub record Stand : Type 0 where
  pub n : ℤ
  pub shut : Bool
  pub forced : Bool
  pub socket : Bool

-- A connection is made if the service went well.
abbrev pub gets_socket : Round → Bool
gets_socket r = not (ltb_ℤ r.n (pos 0)) && r.connects

-- A round in which a connection is made gives the socket of those after it.
abbrev pub ExpectedRounds : (List ℕ → Type 0) → Bool → List Round → Type 0
ExpectedRounds Expected socket [] = Unit {0}
ExpectedRounds Expected socket (r ∷ rs) =
    ExpectedEvents Expected socket r.events × ExpectedRounds Expected (socket || gets_socket r) rs

-- The loop ends before the round.
abbrev pub is_over : Stand → Round → Bool
is_over st r = ltb_ℤ st.n (pos 0) || st.shut || (st.forced || not (no_signal r.signals))

abbrev pub after_round : Stand → Round → Stand
after_round st r = record {
  n = r.n;
  shut = closes r.events || st.shut;
  forced = st.forced || not (no_signal r.signals);
  socket = st.socket || gets_socket r;
}

-- After its events a round needs no connection, or gets one.
abbrev pub stays_on : Stand → Round → Bool
stays_on st r = ltb_ℤ r.n (pos 0) || (st.socket || gets_socket r)

-- The rounds that are served, and the result of the loop, if it ends, by what the library and the
-- signals say alone.
unfoldable pub served_rounds : Stand → List Round → List Round
served_rounds st [] = []
served_rounds st (r ∷ rs) =
    let rest = served_rounds (after_round st r) rs in
    if is_over st r then [] else r ∷ (if stays_on st r then rest else [])

unfoldable pub loop_result : Stand → List Round → Option ℤ
loop_result st [] = none
loop_result st (r ∷ rs) =
    let rest = loop_result (after_round st r) rs in
    if is_over st r then some (pos 0) else if stays_on st r then rest else some (negsuc 0)

-- The events of rounds, one after the other.
abbrev pub events_of : List Round → List Event
events_of [] = []
events_of (r ∷ rs) = r.events ++ events_of rs

-- The texts that belong to an event: the reply to a message, and none else.
abbrev pub Said : (List ℕ → List (List ℕ) → Type 0) → Event → List (List ℕ) → Type 0
Said Reply (client_receive text) ts = Reply text ts
Said Reply e ts = ts ≡ []

-- The texts for events are those of each event, in the order of the events.
pub data Conversation (Reply : List ℕ → List (List ℕ) → Type 0)
    : List Event → List (List ℕ) → Type 0 where
  silence : Conversation Reply [] []
  said :
      {e : Event} {es : List Event} (ts us : List (List ℕ))
      → Said Reply e ts
      → Conversation Reply es us
      → Conversation Reply (e ∷ es) (ts ++ us)

Conversation-append :
    (Reply : List ℕ → List (List ℕ) → Type 0) (es fs : List Event) (ts us : List (List ℕ))
    → Conversation Reply es ts
    → Conversation Reply fs us
    → Conversation Reply (es ++ fs) (ts ++ us)
Conversation-append Reply [] fs ts us silence b = b
Conversation-append Reply (e ∷ es) fs ts us (said vs ws here rest) b =
    subst (Conversation Reply (e ∷ es ++ fs)) (sym (append_assoc vs ws us))
      (said vs (ws ++ us) here (Conversation-append Reply es fs ws us rest b))

-- From `w` to `w'` the texts of a conversation on the events were added, at the end, and the queue
-- can be sent.
pub record Extends (Reply : List ℕ → List (List ℕ) → Type 0) (es : List Event) (w w' : WsThread)
    : Type 0 where
  pub more : List (List ℕ)
  pub added : history w' ≡ history w ++ more
  pub sendable : AllSendable w'.send_queue
  pub talk : Conversation Reply es more

module _ (Reply : List ℕ → List (List ℕ) → Type 0) where
  pub Extends-same :
      (w w' : WsThread) → AllSendable w'.send_queue → history w' ≡ history w → Extends Reply [] w w'
  Extends-same w w' good e = record {
    more = [];
    added = e ∙ sym (append-nil (history w));
    sendable = good;
    talk = silence;
  }

  pub Extends-quiet :
      (e : Event) (w w' : WsThread)
      → Said Reply e []
      → AllSendable w'.send_queue
      → history w' ≡ history w
      → Extends Reply (e ∷ []) w w'
  Extends-quiet e w w' quiet good same = record {
    more = [];
    added = same ∙ sym (append-nil (history w));
    sendable = good;
    talk = said [] [] quiet silence;
  }

  pub Extends-trans :
      (es fs : List Event) (u v w : WsThread)
      → Extends Reply es u v
      → Extends Reply fs v w
      → Extends Reply (es ++ fs) u w
  Extends-trans es fs u v w a b = record {
    more = a.more ++ b.more;
    added =
        b.added
        ∙ ap (λ (l : List (List ℕ)). l ++ b.more) a.added
        ∙ append_assoc (history u) a.more b.more;
    sendable = b.sendable;
    talk = Conversation-append Reply es fs a.more b.more a.talk b.talk;
  }

  -- Texts that are sent are added.
  pub Extends-send :
      (e : Event) (w w' : WsThread) (calls : List (List ℕ × Bool))
      → Queued w calls w'
      → AllSendable w.send_queue
      → AllSendable (texts calls)
      → Said Reply e (texts calls)
      → Extends Reply (e ∷ []) w w'
  Extends-send e w w' calls q good more reply =
      let queue = q.queue in
      let same = q.same_handed in
      record {
        more = texts calls;
        added = ground (arith, queue, same, append_assoc w.handed w.send_queue (texts calls));
        sendable =
            subst AllSendable (sym queue) (AllSendable-append w.send_queue (texts calls) good more);
        talk =
            subst (Conversation Reply (e ∷ [])) (append-nil (texts calls))
              (said (texts calls) [] reply silence);
      }

  -- Members that say nothing of texts do not matter.
  pub Extends-from :
      (es : List Event) (v w w' : WsThread)
      → v.handed ≡ w.handed
      → v.send_queue ≡ w.send_queue
      → Extends Reply es w w'
      → Extends Reply es v w'
  Extends-from es v w w' same queue ext = record {
    more = ext.more;
    added = ground (arith, same, queue, ext.added);
    sendable = ext.sendable;
    talk = ext.talk;
  }

-- What the signals leave: `force_exit` is set if there was one.
pub record Caught (sigs : List ℤ) (w w' : WsThread) : Type 0 where
  pub same_handed : w'.handed ≡ w.handed
  pub same_queue : w'.send_queue ≡ w.send_queue
  pub same_closed : w'.was_closed ≡ w.was_closed
  pub same_socket : w'.has_socket ≡ w.has_socket
  pub forces : w'.force_exit ≡ w.force_exit || not (no_signal sigs)

pub signals-Caught : (sigs : List ℤ) (w : WsThread) → Caught sigs w (catch_signals sigs w)
unfolding catch_signals sighandler
signals-Caught [] w = record {
  same_handed = refl;
  same_queue = refl;
  same_closed = refl;
  same_socket = refl;
  forces = ground arith;
}
signals-Caught (sig ∷ sigs) w =
    let c = signals-Caught sigs (record w { force_exit = true }) in
    let f = c.forces in
    record {
      same_handed = c.same_handed;
      same_queue = c.same_queue;
      same_closed = c.same_closed;
      same_socket = c.same_socket;
      forces = ground (arith, f);
    }

-- The members after a run, and its result.
abbrev pub thread : {S : Type 0} → Run S → WsThread
thread (returned n s w) = w
thread (running s w) = w

abbrev pub result_of : {S : Type 0} → Run S → Option ℤ
result_of (returned n s w) = some n
result_of (running s w) = none

-- How a thread stands before a round.
abbrev pub stand : ℤ → WsThread → Stand
stand n w = record { n = n; shut = w.was_closed; forced = w.force_exit; socket = w.has_socket }

-- The loop ran over the rounds: it ended with the result that they give, or waits for more of them,
-- and what it did is a conversation on the events of all rounds that it had to serve.
pub record LoopRan {S : Type 0} (Reply : List ℕ → List (List ℕ) → Type 0) (st : Stand)
    (rounds : List Round) (w : WsThread) (r : Run S) : Type 0 where
  pub result : result_of r ≡ loop_result st rounds
  pub extends : Extends Reply (events_of (served_rounds st rounds)) w (thread r)

-- The same for `run`: with no context it returns 1 and serves no round.
abbrev pub rounds_of : Bool → WsThread → List Round → List Round
rounds_of created w rounds = if created then served_rounds (stand (pos 0) w) rounds else []

pub record Ran {S : Type 0} (Reply : List ℕ → List (List ℕ) → Type 0) (created : Bool)
    (rounds : List Round) (w : WsThread) (r : Run S) : Type 0 where
  pub result :
      result_of r ≡ (if created then loop_result (stand (pos 0) w) rounds else some (pos 1))
  pub extends : Extends Reply (events_of (rounds_of created w rounds)) w (thread r)

-- What events leave: the texts that belong to them, `was_closed` if they say so, and the rest as it
-- was.
pub record Served (Reply : List ℕ → List (List ℕ) → Type 0) (es : List Event) (w w' : WsThread)
    : Type 0 where
  pub extends : Extends Reply es w w'
  pub closed_by : w'.was_closed ≡ closes es || w.was_closed
  pub same_forced : w'.force_exit ≡ w.force_exit
  pub same_socket : w'.has_socket ≡ w.has_socket
