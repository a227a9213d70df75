-- ===== src/Client/Poor.antt =====
-- A client with a `PoorPlayer`, from the messages of the server to the texts that go out.
use neof5client.Base.{
  ℕ, ◌+◌, ◌-◌, ◌≤◌, ◌≡◌, ◌⊎◌, refl, true, false, List, [], ◌∷◌, Outcome, ok, undefined, arith, inl,
  inr,
}
use neof5client.CardSet.{CardSet, size, has_set, from_text, to_string}
use neof5client.CardSet.Members.{IsValid}
use neof5client.DaifugoRule.{Rule}
use neof5client.DaifugoContext.{DaifugoContext, ba_last}
use neof5client.PoorPlayer.{play_size}
use neof5client.PoorPlayer.Think.{FirstLegal}
use neof5client.PoorPlayer.SortedHand.{sorted_hand}
use neof5client.Neof5Protocol.{
  Picojson, Player, same_text, kind_key, process_turn, put_card, on_message, on_error, on_close,
  neof5_protocol,
}
use neof5client.Neof5Protocol.Turn.{
  poor_player, IsTurn, turn_answered, part-IsValid, read_context-IsContext,
}
use neof5client.WsThread.{Run, returned, running}
use neof5client.WsThread.Drain.{Sendable}
use neof5client.WsThread.Serve.{Answers, IsHandler}
use neof5client.Double.{Double}
use neof5client.Client.{JniRun, jni_running, Held}

-- Nothing needs to be known of the rule that a `PoorPlayer` has.
abbrev pub AnyRule : Rule → Type 0
AnyRule rule = Unit {0}

module _ (J : Picojson) where
  open J use {Value, parse, member, get_string}

  -- A put of a printed set fits into one frame: it has at most 6000 bytes, and none is 0.
  abbrev pub SendsPuts : Type 0
  SendsPuts =
      (cards : CardSet) (text : List ℕ)
      → IsValid cards
      → to_string cards ≡ ok text
      → Sendable (put_card J text).0

  -- A message of another kind than a turn.
  pub record IsOther (message : List ℕ) : Type 0 where
    pub kind : Value
    pub name : List ℕ
    pub has_kind : member (parse message) kind_key ≡ ok kind
    pub named : get_string kind ≡ ok name
    pub differs : same_text name process_turn ≡ false

  -- A turn with at most one card more on the table than in the hand.
  pub record IsPlayable (message : List ℕ) : Type 0 where
    pub ctx : DaifugoContext
    pub turn : IsTurn J message ctx
    pub fits : play_size ctx ≤ size ctx.deck + 1

  abbrev pub Expected : List ℕ → Type 0
  Expected message = IsPlayable message ⊎ IsOther message

  -- The reply to a turn: a put of the first legal window of the hand, or of no card.
  pub record TurnReply (message : List ℕ) (sent : List (List ℕ)) : Type 0 where
    pub ctx : DaifugoContext
    pub turn : IsTurn J message ctx
    pub text : List ℕ
    pub cards : CardSet
    pub one_put : sent ≡ (put_card J text).0 ∷ []
    pub reads : from_text text ≡ ok cards
    pub own_cards : has_set ctx.deck cards ≡ true
    pub first_legal :
        FirstLegal
          (sorted_hand ctx)
          (play_size ctx)
          0
          (size ctx.deck + 1 - play_size ctx)
          ctx.is_kakumei
          (ba_last ctx)
          cards

  abbrev pub PoorReply : List ℕ → List (List ℕ) → Type 0
  PoorReply message sent = TurnReply message sent ⊎ (IsOther message × (sent ≡ []))

  pub other_ignored :
      (P : Player) (members : P.Members) (message : List ℕ)
      → IsOther message
      → on_message J P members message ≡ ok ([], members)
  unfolding on_message
  other_ignored P members message kind_of =
      ground (arith, kind_of.has_kind, kind_of.named, kind_of.differs)

  message_answered :
      SendsPuts
      → (message : List ℕ) (rule : Rule) → Expected message
      → Answers AnyRule (PoorReply message) (on_message J poor_player rule message)
  unfolding put_card
  message_answered puts message rule (inl p) =
      let (text, cards, rule', sends, prints, back, part, legal) =
        turn_answered J rule message p.ctx p.turn p.fits in
      let context = read_context-IsContext J (parse message) p.ctx p.turn.reads in
      let valid = part-IsValid p.ctx.deck cards context.deck_valid part in
      (
        put_card J text ∷ [],
        rule',
        sends,
        (puts cards text valid prints, tt),
        inl (record {
          ctx = p.ctx;
          turn = p.turn;
          text = text;
          cards = cards;
          one_put = refl;
          reads = back;
          own_cards = part;
          first_legal = legal;
        }),
        tt,
      )
  message_answered puts message rule (inr kind_of) =
      ([], rule, other_ignored poor_player rule message kind_of, tt, inr (kind_of, refl), tt)

  pub poor_protocol-IsHandler :
      SendsPuts → IsHandler (neof5_protocol J poor_player) AnyRule Expected PoorReply ⊥
  unfolding on_error on_close
  poor_protocol-IsHandler puts = record {
    error_answers = λ rule known. ([], rule, refl, tt, refl, tt);
    close_answers = λ rule known. ([], rule, refl, tt, refl, tt);
    message_answers =
        λ message rule known expected. inl (message_answered puts message rule expected);
  }

-- What `jnimain` has while `run` goes on.
abbrev pub both_chars : Held
both_chars = record { host_chars = true; path_chars = true; players = 1 }

-- `jnimain` goes on as long as `run` does; when `run` returns, the deletion of the player is
-- undefined.
abbrev pub EndsAs : {S : Type 0} → Run S → Outcome JniRun → Type 0
EndsAs (returned n s w) o = o ≡ undefined
EndsAs (running s w) o = o ≡ ok (jni_running both_chars)
