-- ===== src/WsThread/Drain.antt =====
-- Writing the queue: the texts go out whole and in order.
use neof5client.Base.{
  ℕ, ◌≤◌, ◌≡◌, ◌≢◌, refl, sym, ◌∙◌, Bool, true, false, ◌||◌, List, [], ◌∷◌, ◌++◌, append-nil,
  append_assoc, ok, arith, length, Bool-cases, ◌⊎◌, inl, inr, if◌then◌else◌,
}
use neof5client.Base.Int.{pos, ltb_ℤ}
use neof5client.WsThread.{
  WsThread, send_text, send_texts, copied, frame, Write, write_loop, Handler, client_writeable,
  callback_func,
}

-- A text of at most 6000 bytes, none of them 0.
abbrev pub NoZero : List ℕ → Type 0
NoZero [] = Unit {0}
NoZero (c ∷ cs) = (c ≢ 0) × NoZero cs

abbrev pub Sendable : List ℕ → Type 0
Sendable text = (length text ≤ 6000) × NoZero text

abbrev pub AllSendable : List (List ℕ) → Type 0
AllSendable [] = Unit {0}
AllSendable (t ∷ ts) = Sendable t × AllSendable ts

pub AllSendable-append :
    (ts us : List (List ℕ)) → AllSendable ts → AllSendable us → AllSendable (ts ++ us)
AllSendable-append [] us a b = b
AllSendable-append (t ∷ ts) us (s, a) b = (s, AllSendable-append ts us a b)

copied-all : (text : List ℕ) → NoZero text → copied (length text) text ≡ text
unfolding copied
copied-all [] plain = refl
copied-all (c ∷ cs) (some_byte, plain) = ground (arith, some_byte, copied-all cs plain)

frame-Sendable : (text : List ℕ) → Sendable text → frame text ≡ ok text
unfolding frame
frame-Sendable text (short, plain) = ground (arith, short, copied-all text plain)

-- Whatever the library answers, the loop returns, and the bytes handed over with the texts left in the
-- queue after them are the same as before. It says true only with an empty queue.
pub write_loop_lem :
    (write : Write) (queue handed : List (List ℕ))
    → AllSendable queue
    → (all : Bool) × (queue' : List (List ℕ)) × (handed' : List (List ℕ)) × (write_loop write queue
          handed
        ≡ ok (all, queue', handed'))
      × (handed' ++ queue' ≡ handed ++ queue)
      × AllSendable queue'
      × (all ≡ true → queue' ≡ [])
unfolding write_loop
write_loop_lem write [] handed good = (true, [], handed, refl, refl, tt, λ e. refl)
write_loop_lem write (text ∷ queue) handed (s, good) =
    let bytes = frame-Sendable text s in
    let moved = append_assoc handed (text ∷ []) queue in
    elim (Bool-cases
      (ltb_ℤ (write handed text) (pos 0) || ltb_ℤ (write handed text) (pos (length text)))) [
        | inl short ↦
            (false, queue, handed ++ text ∷ [], ground (arith, bytes, short), moved, good, λ e. cc)
        | inr whole ↦
            let (all, queue', handed', run, kept, left, done) =
              write_loop_lem write queue (handed ++ text ∷ []) good in
            (all, queue', handed', ground (arith, bytes, whole, run), kept ∙ moved, left, done)
      ]

-- A library that takes each text whole.
abbrev pub Accepts : Write → Type 0
Accepts write = (handed : List (List ℕ)) (bytes : List ℕ) → write handed bytes ≡ pos (length bytes)

accepted-all :
    (write : Write) (queue handed : List (List ℕ))
    → Accepts write
    → AllSendable queue
    → write_loop write queue handed ≡ ok (true, [], handed ++ queue)
unfolding write_loop
accepted-all write [] handed takes good = rw (append-nil handed) refl
accepted-all write (text ∷ queue) handed takes (s, good) =
    let ih = accepted-all write queue (handed ++ text ∷ []) takes good in
    ground
      (arith, frame-Sendable text s, takes handed text, ih, append_assoc handed (text ∷ []) queue)

abbrev pub texts : List (List ℕ × Bool) → List (List ℕ)
texts [] = []
texts ((txt, flush) ∷ rest) = txt ∷ texts rest

-- A call may be made: there is a socket, or nothing is to be sent.
abbrev pub CanSend : WsThread → List (List ℕ × Bool) → Type 0
CanSend w calls = (w.has_socket ≡ true) ⊎ (texts calls ≡ [])

-- What calls of `sendText` leave: the texts at the end of the queue, and the rest as it was.
pub record Queued (w : WsThread) (calls : List (List ℕ × Bool)) (w' : WsThread) : Type 0 where
  pub queue : w'.send_queue ≡ w.send_queue ++ texts calls
  pub same_handed : w'.handed ≡ w.handed
  pub same_closed : w'.was_closed ≡ w.was_closed
  pub same_forced : w'.force_exit ≡ w.force_exit
  pub same_socket : w'.has_socket ≡ w.has_socket

send_text-socket :
    (w : WsThread) (txt : List ℕ) (flush : Bool)
    → w.has_socket ≡ true
    → send_text w txt flush
      ≡ ok (record w {
        send_queue = w.send_queue ++ txt ∷ [];
        wanted = if flush then true else w.wanted;
      })
unfolding send_text
send_text-socket w txt true socket = ground (arith, socket)
send_text-socket w txt false socket = refl

pub send_texts-Queued :
    (w : WsThread) (calls : List (List ℕ × Bool))
    → CanSend w calls
    → (w' : WsThread) × (send_texts w calls ≡ ok w') × Queued w calls w'
unfolding send_texts
send_texts-Queued w [] can = (
  w,
  refl,
  record {
    queue = sym (append-nil w.send_queue);
    same_handed = refl;
    same_closed = refl;
    same_forced = refl;
    same_socket = refl;
  },
)
send_texts-Queued w ((txt, flush) ∷ rest) (inr silent) = cc
send_texts-Queued w ((txt, flush) ∷ rest) (inl socket) =
    let w1 = record w {
      send_queue = w.send_queue ++ txt ∷ [];
      wanted = if flush then true else w.wanted;
    } in
    let one : send_text w txt flush ≡ ok w1 = send_text-socket w txt flush socket in
    let (w', run, q) = send_texts-Queued w1 rest (inl socket) in
    (
      w',
      rw one run,
      record {
        queue = q.queue ∙ append_assoc w.send_queue (txt ∷ []) (texts rest);
        same_handed = q.same_handed;
        same_closed = q.same_closed;
        same_forced = q.same_forced;
        same_socket = q.same_socket;
      },
    )

-- With a library that takes texts whole, texts that have at most 6000 bytes and no byte 0, and a
-- socket if there is a text to send: any calls of `sendText` return, the callback for a writeable
-- socket then returns 0 with an empty queue, and what went to `libwebsocket_write` then is what had
-- gone there before, the texts that were queued, and the texts of the calls, in this order.
pub sent_in_order :
    {S : Type 0} (write : Write) (handler : Handler S) (s : S) (w : WsThread)
    (calls : List (List ℕ × Bool))
    → Accepts write
    → AllSendable w.send_queue
    → AllSendable (texts calls)
    → CanSend w calls
    → (w1 : WsThread) × (w' : WsThread) × (send_texts w calls ≡ ok w1)
      × (callback_func write handler client_writeable s w1 ≡ ok (pos 0, s, w'))
      × (w'.send_queue ≡ [])
      × (w'.handed ≡ w.handed ++ (w.send_queue ++ texts calls))
unfolding callback_func
sent_in_order write handler s w calls takes good good' can =
    let (w1, sends, q) = send_texts-Queued w calls can in
    let queue = q.queue in
    let same = q.same_handed in
    let run =
      accepted-all write (w.send_queue ++ texts calls) w.handed takes
        (AllSendable-append w.send_queue (texts calls) good good') in
    (
      w1,
      record w1 {
        send_queue = [];
        handed = w.handed ++ (w.send_queue ++ texts calls);
        wanted = false;
      },
      sends,
      ground (arith, queue, same, run),
      refl,
      refl,
    )
