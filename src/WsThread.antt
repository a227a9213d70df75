-- ===== src/WsThread.antt =====
-- Neof5Client/jni/neof5/WsThread.hpp and WsThread.cpp: the queue of texts to send, the callback of
-- libwebsockets and the loop that serves it. The calls of libwebsockets are parameters: what
-- `libwebsocket_write` answers, and for each round of the loop the events that
-- `libwebsocket_service` delivers, its result, and whether a connection could be made.
pub mod Drain
pub mod Serve
pub mod Loop
pub mod Closing
pub mod Tests
use neof5client.Base.{
  ℕ, zero, suc, ◌+◌, ◌-◌, Bool, true, false, not, ◌&&◌, ◌||◌, List, [], ◌∷◌, ◌++◌, ltb, leb, ◌==◌,
  if◌then◌else◌, Outcome, ok, undefined, ◌>>=◌, length,
}
use neof5client.Base.Int.{ℤ, pos, negsuc, ltb_ℤ}

abbrev pub ws_message_size_max : ℕ
ws_message_size_max = 6000

-- The members, with the static `force_exit`; `wanted` says that `libwebsocket_callback_on_writable`
-- was called since the last event of that kind, and `handed` has the bytes of each call of
-- `libwebsocket_write`, in order, whatever it answered.
pub record WsThread : Type 0 where
  pub has_context : Bool
  pub force_exit : Bool
  pub send_queue : List (List ℕ)
  pub was_closed : Bool
  pub has_socket : Bool
  pub wanted : Bool
  pub handed : List (List ℕ)

-- The constructor; the static `force_exit` stays as earlier threads left it.
abbrev pub new_thread : Bool → WsThread
new_thread forced = record {
  has_context = false;
  force_exit = forced;
  send_queue = [];
  was_closed = false;
  has_socket = false;
  wanted = false;
  handed = [];
}

-- The destructor: how often it calls `libwebsocket_context_destroy`.
abbrev pub contexts_destroyed : WsThread → ℕ
contexts_destroyed w = if w.has_context then 1 else 0

-- An entry of the table of protocols, and the table: one entry before the end mark.
pub record WsProtocol : Type 0 where
  pub name : List ℕ
  pub per_session_data_size : ℕ
  pub rx_buffer_size : ℕ

abbrev pub protocols : List WsProtocol
protocols =
    record {
      name = b'd' ∷ b'a' ∷ b'i' ∷ b'f' ∷ b'5' ∷ [];
      per_session_data_size = ws_message_size_max;
      rx_buffer_size = ws_message_size_max;
    }
    ∷ []

-- `sighandler(sig)`, and the signals caught one after the other.
unfoldable pub sighandler : ℤ → WsThread → WsThread
sighandler sig w = record w { force_exit = true }

unfoldable pub catch_signals : List ℤ → WsThread → WsThread
unfolding sighandler
catch_signals [] w = w
catch_signals (sig ∷ sigs) w = catch_signals sigs (sighandler sig w)

-- `sendText(txt, flush)`; `libwebsocket_callback_on_writable` of a null socket is undefined.
unfoldable pub send_text : WsThread → List ℕ → Bool → Outcome WsThread
send_text w txt flush =
    if flush && not w.has_socket
    then undefined
    else ok (record w {
      send_queue = w.send_queue ++ txt ∷ [];
      wanted = if flush then true else w.wanted;
    })

-- What `strncpy` leaves in the first `left` bytes: the text up to a 0 byte, then 0 bytes.
unfoldable pub copied : ℕ → List ℕ → List ℕ
copied zero text = []
copied (suc left) [] = 0 ∷ copied left []
copied (suc left) (c ∷ cs) = if c == 0 then 0 ∷ copied left [] else c ∷ copied left cs

-- The bytes that are handed over: as many as the text has. Behind WS_MESSAGE_SIZE_MAX bytes lie
-- the padding of the library and the end of the buffer.
unfoldable pub frame : List ℕ → Outcome (List ℕ)
unfolding copied
frame text =
    if leb (length text) ws_message_size_max then ok (copied (length text) text) else undefined

-- `libwebsocket_write`: its result for the bytes, after what was handed before.
abbrev pub Write : Type 0
Write = List (List ℕ) → List ℕ → ℤ

-- The loop of LWS_CALLBACK_CLIENT_WRITEABLE: true if it came to the end of the queue, and the
-- queue and the bytes handed after it.
unfoldable pub write_loop :
    Write → List (List ℕ) → List (List ℕ) → Outcome (Bool × List (List ℕ) × List (List ℕ))
unfolding frame
write_loop write [] handed = ok (true, [], handed)
write_loop write (text ∷ queue) handed = do
  bytes ← frame text
  let n = write handed bytes
  elim (ltb_ℤ n (pos 0) || ltb_ℤ n (pos (length text))) [
    | true ↦ ok (false, queue, handed ++ bytes ∷ [])
    | false ↦ write_loop write queue (handed ++ bytes ∷ [])
  ]

pub data Event : Type 0 where
  client_established client_connection_error closed : Event
  client_receive : List ℕ → Event
  client_writeable confirm_extension_supported other : Event

-- Calls of `sendText` one after the other: what `_sendFunc` does for a handler.
unfoldable pub send_texts : WsThread → List (List ℕ × Bool) → Outcome WsThread
unfolding send_text
send_texts w [] = ok w
send_texts w ((txt, flush) ∷ rest) = do w' ← send_text w txt flush; send_texts w' rest

-- `mHandler` with members `S`: its calls, with the texts that they send.
pub record Handler (S : Type 0) : Type 0 where
  pub on_open : S → Outcome (List (List ℕ × Bool) × S)
  pub on_error : S → Outcome (List (List ℕ × Bool) × S)
  pub on_close : S → Outcome (List (List ℕ × Bool) × S)
  pub on_message : List ℕ → S → Outcome (List (List ℕ × Bool) × S)

-- A round of the loop of `run`: the signals caught before it, the events and the result of
-- `libwebsocket_service`, and whether `libwebsocket_client_connect` gives a socket.
pub record Round : Type 0 where
  pub signals : List ℤ
  pub events : List Event
  pub n : ℤ
  pub connects : Bool

-- How `run` stands after some rounds: it returned, or it goes on.
pub data Run (S : Type 0) : Type 0 where
  returned : ℤ → S → WsThread → Run S
  running : S → WsThread → Run S

module _ {S : Type 0} (write : Write) (handler : Handler S) where
  -- A call of the handler, which may send texts.
  abbrev pub handled : Outcome (List (List ℕ × Bool) × S) → WsThread → Outcome (ℤ × S × WsThread)
  handled call w = do answer ← call; w' ← send_texts w answer.0; ok (pos 0, answer.1, w')

  -- `callback_func`: the result and the members.
  unfoldable pub callback_func : Event → S → WsThread → Outcome (ℤ × S × WsThread)
  unfolding write_loop send_texts
  callback_func client_established s w = ok (pos 0, s, w)
  callback_func client_connection_error s w =
      handled (handler.on_error s) (record w { was_closed = true })
  callback_func closed s w = handled (handler.on_close s) (record w { was_closed = true })
  callback_func (client_receive text) s w = handled (handler.on_message text s) w
  callback_func client_writeable s w = do
    drained ← write_loop write w.send_queue w.handed
    let (all, queue, handed) = drained
    ok (
      if all then pos 0 else negsuc 0,
      s,
      record w { send_queue = queue; handed = handed; wanted = false },
    )
  callback_func confirm_extension_supported s w = ok (pos 1, s, w)
  callback_func other s w = ok (pos 0, s, w)

  unfoldable pub deliver : List Event → S → WsThread → Outcome (S × WsThread)
  unfolding callback_func
  deliver [] s w = ok (s, w)
  deliver (e ∷ es) s w = do answer ← callback_func e s w; let (n, s', w') = answer; deliver es s' w'

  -- The loop of `run`, for the last result `n` of the service.
  unfoldable pub run_loop : ℤ → List Round → S → WsThread → Outcome (Run S)
  unfolding deliver catch_signals
  run_loop n [] s w = ok (running s w)
  run_loop n (r ∷ rs) s w =
      let w0 = catch_signals r.signals w in
      elim (ltb_ℤ n (pos 0) || w0.was_closed || w0.force_exit) [
        | true ↦ ok (returned (pos 0) s w0)
        | false ↦ do
          served ← deliver r.events s w0
          let (s', w') = served
          elim (ltb_ℤ r.n (pos 0) || w'.has_socket) [
            | true ↦ run_loop r.n rs s' w'
            | false ↦ elim r.connects [
              | true ↦ run_loop r.n rs s' (record w' { has_socket = true })
              | false ↦ ok (returned (negsuc 0) s' w')
            ]
          ]
      ]

  -- `run`: `create_context` is the answer of `libwebsocket_create_context` for the protocols.
  unfoldable pub run : (List WsProtocol → Bool) → List Round → S → WsThread → Outcome (Run S)
  unfolding run_loop
  run create_context rounds s w =
      if create_context protocols
      then run_loop (pos 0) rounds s (record w { has_context = true })
      else ok (returned (pos 1) s w)

-- Class `WsThread`: a field for each public member function, for members `S` of its handler.
pub record WsThreadClass (S : Type 0) : Type 0 where
  pub new_thread : Bool → WsThread
  pub contexts_destroyed : WsThread → ℕ
  pub run : (List WsProtocol → Bool) → List Round → S → WsThread → Outcome (Run S)
  pub send_text : WsThread → List ℕ → Bool → Outcome WsThread

abbrev pub ws_thread_class : {S : Type 0} → Write → Handler S → WsThreadClass S
ws_thread_class write handler = record {
  new_thread = new_thread;
  contexts_destroyed = contexts_destroyed;
  run = run write handler;
  send_text = send_text;
}
