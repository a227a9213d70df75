-- ===== src/Neof5Protocol/Turn.antt =====
-- A turn from the server's message to the message that answers it.
use neof5client.Base.{
  ℕ, ◌+◌, ◌-◌, ◌≤◌, ◌≡◌, refl, true, List, [], ◌∷◌, ◌++◌, map, ok, ◌>>=◌, sequence-Returned,
  Bool-cases, inl, inr,
}
use neof5client.CardSet.{CardSet, size, has_set, from_text, to_string}
use neof5client.CardSet.Members.{IsValid, member, member_above, has_set_iff, IsValid-of_members}
use neof5client.CardSet.Text.{from_text-to_string}
use neof5client.DaifugoRule.{Rule}
use neof5client.DaifugoContext.{DaifugoContext, ba_last}
use neof5client.DaifugoContext.Text.{IsContext, make_context-IsContext}
use neof5client.PoorPlayer
use neof5client.PoorPlayer.{play_size}
use neof5client.PoorPlayer.Think.{FirstLegal}
use neof5client.PoorPlayer.SortedHand.{sorted_hand}
use neof5client.PoorPlayer.Answer.{think-FirstLegal}
use neof5client.Neof5Protocol.{
  Picojson, Player, kind_key, process_turn, deck_key, yama_key, is_kakumei_key, ba_key, teban_key,
  player_info_key, tweet, put_card, read_context, read_strings, read_players, on_message,
}

-- A part of a set of the 53 cards is one.
pub part-IsValid : (s t : CardSet) → IsValid s → has_set s t ≡ true → IsValid t
part-IsValid s t v part = IsValid-of_members t (λ i far. elim (Bool-cases (member t i)) [
  | inr absent ↦ absent
  | inl there ↦ cc ((has_set_iff s t).0 part i there, member_above s i v far)
])

-- `PoorPlayer` tweets nothing; its rule object is what it keeps.
abbrev pub poor_player : Player
poor_player = record {
  Members = Rule;
  set_rule = λ members rule. rule;
  think = λ rule ctx. do
    answer ← PoorPlayer.think rule ctx
    ok (answer.0, [], answer.1);
}

module _ (J : Picojson) where
  open J use {Value, parse, member, get_string, get_bool, get_array, get_int}

  -- A turn that was read has sets of the 53 cards only.
  pub read_context-IsContext :
      (obj : Value) (ctx : DaifugoContext) → read_context J obj ≡ ok ctx → IsContext ctx
  unfolding read_context
  read_context-IsContext obj ctx h =
      let a = sequence-Returned (member obj deck_key) _ ctx h in
      let b = sequence-Returned (get_string a.value) _ ctx a.rest in
      let c = sequence-Returned (member obj yama_key) _ ctx b.rest in
      let d = sequence-Returned (get_string c.value) _ ctx c.rest in
      let e = sequence-Returned (member obj is_kakumei_key) _ ctx d.rest in
      let f = sequence-Returned (get_bool e.value) _ ctx e.rest in
      let g = sequence-Returned (member obj ba_key) _ ctx f.rest in
      let k = sequence-Returned (get_array g.value) _ ctx g.rest in
      let l = sequence-Returned (read_strings J k.value) _ ctx k.rest in
      let m = sequence-Returned (member obj teban_key) _ ctx l.rest in
      let n = sequence-Returned (get_int m.value) _ ctx m.rest in
      let o = sequence-Returned (member obj player_info_key) _ ctx n.rest in
      let p = sequence-Returned (get_array o.value) _ ctx o.rest in
      let q = sequence-Returned (read_players J p.value) _ ctx p.rest in
      let (valid, deck, yama, ba, teban, kakumei, players) =
        make_context-IsContext b.value n.value l.value d.value f.value q.value ctx q.rest in
      valid

  -- The message is a turn `ctx`.
  pub record IsTurn (message : List ℕ) (ctx : DaifugoContext) : Type 0 where
    pub kind : Value
    pub has_kind : member (parse message) kind_key ≡ ok kind
    pub named : get_string kind ≡ ok process_turn
    pub reads : read_context J (parse message) ≡ ok ctx

  -- For a turn on which the player returns a set of the 53 cards, `onMessage` sends the player's
  -- tweets in order and then one put, of a text that the constructor of `CardSet` reads as that
  -- set.
  pub answered :
      (P : Player) (members members' : P.Members) (message : List ℕ) (ctx : DaifugoContext)
      (hand : CardSet) (tweets : List (List ℕ))
      → IsTurn message ctx
      → P.think members ctx ≡ ok (hand, tweets, members')
      → IsValid hand
      → (text : List ℕ) × (on_message J P members message
          ≡ ok (map (tweet J) tweets ++ put_card J text ∷ [], members'))
        × (to_string hand ≡ ok text)
        × (from_text text ≡ ok hand)
  unfolding on_message
  answered P members members' message ctx hand tweets turn thinks valid =
      let (text, prints, back) = from_text-to_string hand valid in
      (
        text,
        rw turn.has_kind (rw turn.named (rw turn.reads (rw thinks (rw prints refl)))),
        prints,
        back,
      )

  -- For a message that is a turn with at most one card more on the table than in the hand, a
  -- client with a `PoorPlayer` sends exactly one message, a put with the text of a set of the
  -- hand's cards, which the constructor of a set reads back; the set is the first legal window of the sorted hand, or a pass if there is none.
  pub turn_answered :
      (rule : Rule) (message : List ℕ) (ctx : DaifugoContext)
      → IsTurn message ctx
      → play_size ctx ≤ size ctx.deck + 1
      → (text : List ℕ) × (cards : CardSet) × (rule' : Rule) × (on_message J poor_player rule
            message
          ≡ ok (put_card J text ∷ [], rule'))
        × (to_string cards ≡ ok text)
        × (from_text text ≡ ok cards)
        × (has_set ctx.deck cards ≡ true)
        × FirstLegal
            (sorted_hand ctx)
            (play_size ctx)
            0
            (size ctx.deck + 1 - play_size ctx)
            ctx.is_kakumei
            (ba_last ctx)
            cards
  turn_answered rule message ctx turn fits =
      let context = read_context-IsContext (parse message) ctx turn.reads in
      let (cards, rule', thinks, part, legal) = think-FirstLegal rule ctx context fits in
      let (text, sends, prints, back) =
        answered poor_player rule rule' message ctx cards [] turn (rw thinks refl)
          (part-IsValid ctx.deck cards context.deck_valid part) in
      (text, cards, rule', sends, prints, back, part, legal)
