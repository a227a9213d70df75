-- ===== src/Lib.antt =====
-- neof5client, an Android client that plays the card game Daifugo over a WebSocket: the rules of the
-- game, the sets of cards, and the computer players. The sources are the C++ files of
-- Neof5Client/jni/neof5.
--
-- How the parts interact. The server sends a turn as JSON; `Neof5Protocol` makes a `DaifugoContext`
-- of it (the hand, the sets on the table, the discard pile, the revolution flag, the other players)
-- and asks a player (`IPlayer::think`) for the set of cards to put. A player asks a rule object
-- (`IDaifugoRule`) which sets it may put. Players and rules compute on `CardSet`, 64 bits, and on
-- `Card`, an index into a table.
--
-- Which module models which source:
-- - Card: `Card`, `Suit` and the free function `compare` of Cards.hpp and Cards.cpp. A `Card` is its
--   field `idx`; `Card::getNum` is `get_num`, `Card::fromString` is `from_string`, and so on. A text
--   is a list of bytes.
-- - CardSet: `CardSet` of the same files, its field `bits` as a number below 2 ^ 64 with the wrap of
--   each shift and complement written out. The overloads have names of their own: `add_card` and
--   `add_set` for the two `operator+=`, `from_vector` and `from_text` for the constructors.
-- - DaifugoRule: `DaifugoRuleA` and `DaifugoRuleB` of DaifugoRule.hpp and DaifugoRule.cpp. `Rule` is
--   an object of either class; `can_put` and `can_agari` are the virtual calls, `can_put_a` and
--   `can_put_b` the bodies. A chk_result_t is the constructor of the message that it points to.
-- - PlayerInfo, DaifugoContext: the records of a turn, and the constructor that reads their texts.
-- - PoorPlayer: `PoorPlayer::think`.
-- - Double: C++ doubles, a record of operations that the search takes as a parameter. The theorems
--   hold for every implementation of these operations; those on the answer of `think` ask that
--   doubles made of small numbers compare as the numbers do, and that on the best child that `<` is
--   an order.
-- - EvalNode: the search tree of EvalNode.hpp and EvalNode.cpp on an explicit heap. A pointer is an
--   index; `createChild` puts the new node at the end of the heap.
-- - SagePlayer: SagePlayer.cpp. The parent has the enumeration of plays, `_enumrateAvairableHands`
--   and `_genAllCombination`, where a `std::set<CardSet>` is the ascending list of its elements;
--   SagePlayer.Potential the estimate `_calcPotentialToBeFightback`; SagePlayer.Search and
--   SagePlayer.Level `_think_recursive`; SagePlayer.Entry `think2` and `think`. The proofs on the search follow its loops: SagePlayer.Sound
--   has the invariant of the tree, SagePlayer.SortHand, Sorting, Born, Children, Roots, Levels, Node
--   and Ends are about the loops from the inner to the outer, SagePlayer.Heir, Played and Answer about
--   what becomes of the node. The clock, the random
--   numbers, and the addresses by which a `std::set<EvalNode*>` is ordered are parameters.
-- - WsThread: the queue of texts, `callback_func`, the signal handler and `run` of WsThread.cpp. What
--   libwebsockets answers and delivers is a parameter. WsThread.Serve says which rounds of it the
--   loop has to serve and with which result, WsThread.Loop that it does. `handed` is what went to
--   `libwebsocket_write`, whether it was written or not. The static `force_exit` stands with the
--   members; a handler is a record of the calls of `IWsHandler` on its own members, and what it sends
--   by `_sendFunc` is part of the answer of a call.
-- - Neof5Protocol: `onMessage`, `putCard` and `tweet` of Neof5Protocol.cpp. picojson is a parameter,
--   and so is the player; Neof5Protocol.Turn puts `PoorPlayer` there, and Client.Sage `SagePlayer`.
-- - Client: `main` of clientmain.cpp and `jnimain` of jnimain.cpp, with the arguments, and with what
--   `jnimain` has in hand: the characters of two Java strings, and a player. The Java runtime is a
--   parameter. `atoi` is the C library's. Client.Poor is about `jnimain`, Client.Main about `main`
--   with a `SagePlayer`.
-- - Card.Class, CardSet.Class, DaifugoRule.Class, EvalNode.Class and SagePlayer.Class: the classes of
--   the headers as records of their public members. The contract IsSets says what the users of
--   `CardSet` rely on; CardSet.Unseen is a client that uses nothing but it.
-- - Base: shared helpers; lists and tests over native numbers, machine words (Base.Bits), integers
--   (Base.Int), and `Outcome`, in which a call returns, throws, does what C++ leaves undefined, or
--   runs out of the rounds that the model gives it. For each component the module Tests has runs.
--
-- Bounds and rounds. `conv2Vector` runs while a bit is left, 64 rounds at most. The loops of `size`
-- and `at` run once for each of the 53 cards. `rounds` is the trip count of the loop of
-- `PoorPlayer::think` with a size_t of 32 bits. `getHeirOfRoot` and `saveHandsTree` go from a node to
-- a parent that stands before it on the heap, so that one round more than the index is enough;
-- `findBestParamChild` goes to nodes behind, so that the length of the heap is. `_genAllCombination`
-- has one card less in the deck at each call, and a deck has at most 53: 54 rounds. The loop of
-- `_calcPotentialToBeFightback` goes through the strengths from 1 to 13: 14 rounds. The loop of
-- `run` goes through a list of rounds, which may be as long as one likes. That these rounds do
-- suffice is part of the theorems on these functions. `think2` gives the search 56 levels: a
-- level has a card less than the one above it, but for the pass below the root, and that they
-- suffice is part of the theorem on `think`.
--
-- What is not modelled. The macros of mydef.h write a log, and so does `usage`; the log is left out. The engine of the
-- random numbers is a parameter. picojson.h and libwebsockets-1.23 are copies of other libraries, and the Java activity
-- only starts the native code.
pub mod Base
pub mod Card
pub mod CardSet
pub mod DaifugoRule
pub mod PlayerInfo
pub mod DaifugoContext
pub mod PoorPlayer
pub mod Double
pub mod EvalNode
pub mod SagePlayer
pub mod WsThread
pub mod Client
pub mod Neof5Protocol
