-- ===== src/Client/Sage.antt =====
-- A client with a `SagePlayer`: what it sends in answer to a turn.
use neof5client.Base.{
  subst, ap, sym, ℕ, ◌≡◌, ◌⊎◌, refl, true, List, [], ◌∷◌, ◌++◌, map, Bool, Outcome, ok, undefined,
  inl, inr,
}
use neof5client.CardSet.{CardSet, has_set, from_text, to_string}
use neof5client.DaifugoContext.{DaifugoContext, ba_last}
use neof5client.DaifugoContext.Text.{AllValid}
use neof5client.DaifugoRule.Legal.{LegalPlay}
use neof5client.Double.{Double}
use neof5client.Neof5Protocol.{
  Picojson, tweet, put_card, on_message, on_error, on_close, neof5_protocol,
}
use neof5client.Neof5Protocol.Turn.{IsTurn, answered, part-IsValid, read_context-IsContext}
use neof5client.SagePlayer.Search.{Sage, Tweet}
use neof5client.SagePlayer.Estimates.{ExactUpTo64}
use neof5client.SagePlayer.Class.{sage_player, tweet_text}
use neof5client.SagePlayer.Answer.{Slow, think-Plays}
use neof5client.WsThread.Drain.{Sendable, AllSendable, texts}
use neof5client.WsThread.Serve.{Answers, OrFails, IsHandler}
use neof5client.Client.Poor.{SendsPuts, IsOther, other_ignored}

module _ (D : Double) (exact : ExactUpTo64 D) (clock address random : ℕ → ℕ) (J : Picojson) where
  open D use {R}
  open J use {parse}

  -- The tweets, and then one put, of a part of the hand that is a legal play; what the player saves
  -- is of the 53 cards.
  pub record SageReply (ctx : DaifugoContext) (o : Outcome (List (List ℕ × Bool) × Sage R))
      : Type 0 where
    pub tweets : List Tweet
    pub text : List ℕ
    pub cards : CardSet
    pub after : Sage R
    pub sends : o ≡ ok (map (tweet J) (map tweet_text tweets) ++ put_card J text ∷ [], after)
    pub prints : to_string cards ≡ ok text
    pub reads : from_text text ≡ ok cards
    pub own_cards : has_set ctx.deck cards ≡ true
    pub legal : LegalPlay ctx.is_kakumei cards (ba_last ctx)
    pub still_valid : AllValid after.saved_hands_tree

  -- For a message that is a turn, and doubles that are exact up to 64: a client with a
  -- `SagePlayer` whose saved hands are of the 53 cards sends its tweets and then one put, of the
  -- text of a part of the hand that is a legal play, and its saved hands are of the 53 cards
  -- again; or else it reads through a null pointer, and then more than the limit of the search
  -- went by from the first reading of the clock in this call to a later one.
  pub sage_turn_answered :
      (s : Sage R) (message : List ℕ) (ctx : DaifugoContext)
      → IsTurn J message ctx
      → AllValid s.saved_hands_tree
      → SageReply ctx (on_message J (sage_player D clock address random) s message)
        ⊎ ((on_message J (sage_player D clock address random) s message ≡ undefined)
            × Slow clock s.clock_reads)
  unfolding on_message
  sage_turn_answered s message ctx turn all =
      let context = read_context-IsContext J (parse message) ctx turn.reads in
      elim (think-Plays D exact clock address random ctx context (record s { tweets = [] }) all) [
        | inl (hand, s', thinks, (part, legal), kept) ↦
            let (text, sends, prints, back) =
              answered J (sage_player D clock address random) s s' message ctx hand
                (map tweet_text s'.tweets) turn (rw thinks refl)
                (part-IsValid ctx.deck hand context.deck_valid part) in
            inl (record {
              tweets = s'.tweets;
              text = text;
              cards = hand;
              after = s';
              sends = sends;
              prints = prints;
              reads = back;
              own_cards = part;
              legal = legal;
              still_valid = kept;
            })
        | inr (bad, slow) ↦
            inr (rw turn.has_kind (rw turn.named (rw turn.reads (rw bad refl))), slow)
      ]

  -- Every frame of a tweet can be sent.
  abbrev pub SendsTweets : Type 0
  SendsTweets = (t : Tweet) → Sendable (tweet J (tweet_text t)).0

  -- A reading of the clock is more than the limit of a search after an earlier one.
  abbrev pub WasLate : Type 0
  WasLate = (first : ℕ) × Slow clock first

  -- A message that is a turn, or of another kind.
  abbrev pub AnyMessage : List ℕ → Type 0
  AnyMessage message = ((ctx : DaifugoContext) × IsTurn J message ctx) ⊎ IsOther J message

  -- The texts of an answer: the tweets, and the put of `text`.
  abbrev pub answer_texts : List Tweet → List ℕ → List (List ℕ)
  answer_texts [] text = (put_card J text).0 ∷ []
  answer_texts (t ∷ ts) text = (tweet J (tweet_text t)).0 ∷ answer_texts ts text

  -- The reply to a turn: tweets, and one put, of a part of the hand that is a legal play.
  pub record LegalReply (message : List ℕ) (given : List (List ℕ)) : Type 0 where
    pub ctx : DaifugoContext
    pub turn : IsTurn J message ctx
    pub tweets : List Tweet
    pub text : List ℕ
    pub cards : CardSet
    pub sends : given ≡ answer_texts tweets text
    pub reads : from_text text ≡ ok cards
    pub own_cards : has_set ctx.deck cards ≡ true
    pub legal : LegalPlay ctx.is_kakumei cards (ba_last ctx)

  abbrev pub GivenReply : List ℕ → List (List ℕ) → Type 0
  GivenReply message given = LegalReply message given ⊎ (IsOther J message × (given ≡ []))

  texts_of_calls :
      (ts : List Tweet) (text : List ℕ)
      → texts (map (tweet J) (map tweet_text ts) ++ put_card J text ∷ []) ≡ answer_texts ts text
  texts_of_calls [] text = refl
  texts_of_calls (t ∷ ts) text =
      ap (λ (l : List (List ℕ)). (tweet J (tweet_text t)).0 ∷ l) (texts_of_calls ts text)

  answer-Sendable :
      SendsTweets
      → (ts : List Tweet) (text : List ℕ) → Sendable (put_card J text).0
      → AllSendable (answer_texts ts text)
  answer-Sendable says [] text put = (put, tt)
  answer-Sendable says (t ∷ ts) text put = (says t, answer-Sendable says ts text put)

  message_answered :
      SendsPuts J
      → SendsTweets
      → (message : List ℕ) (s : Sage R) → AllValid s.saved_hands_tree
      → AnyMessage message
      → OrFails WasLate (on_message J (sage_player D clock address random) s message) (
          Answers
            (λ (m : Sage R). AllValid m.saved_hands_tree)
            (GivenReply message)
            (on_message J (sage_player D clock address random) s message))
  message_answered puts says message s all (inl (ctx, turn)) =
      elim (sage_turn_answered s message ctx turn all) [
        | inr (bad, slow) ↦ inr (bad, (s.clock_reads, slow))
        | inl reply ↦
            let context = read_context-IsContext J (parse message) ctx turn.reads in
            let valid = part-IsValid ctx.deck reply.cards context.deck_valid reply.own_cards in
            let same = texts_of_calls reply.tweets reply.text in
            inl (
              map (tweet J) (map tweet_text reply.tweets) ++ put_card J reply.text ∷ [],
              reply.after,
              reply.sends,
              subst AllSendable (sym same) (
                  answer-Sendable says reply.tweets reply.text
                    (puts reply.cards reply.text valid reply.prints)),
              inl (record {
                ctx = ctx;
                turn = turn;
                tweets = reply.tweets;
                text = reply.text;
                cards = reply.cards;
                sends = same;
                reads = reply.reads;
                own_cards = reply.own_cards;
                legal = reply.legal;
              }),
              reply.still_valid,
            )
      ]
  message_answered puts says message s all (inr kind_of) = inl (
    [],
    s,
    other_ignored J (sage_player D clock address random) s message kind_of,
    tt,
    inr (kind_of, refl),
    all,
  )

  pub sage_protocol-IsHandler :
      SendsPuts J
      → SendsTweets
      → IsHandler
          (neof5_protocol J (sage_player D clock address random))
          (λ (m : Sage R). AllValid m.saved_hands_tree)
          AnyMessage
          GivenReply
          WasLate
  unfolding on_error on_close
  sage_protocol-IsHandler puts says = record {
    error_answers = λ s all. ([], s, refl, tt, refl, all);
    close_answers = λ s all. ([], s, refl, tt, refl, all);
    message_answers = λ message s all expected. message_answered puts says message s all expected;
  }
