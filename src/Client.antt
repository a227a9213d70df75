-- ===== src/Client.antt =====
-- Neof5Client/jni/neof5/clientmain.cpp and jnimain.cpp: the two programs that connect a player, the
-- protocol and the loop. What libwebsockets, picojson and the Java runtime do are parameters.
pub mod Poor
pub mod Sage
pub mod Return
pub mod Main
pub mod Tests
use neof5client.Base.{
  ℕ, suc, ◌+◌, ◌*◌, ◌-◌, Bool, true, false, not, ◌&&◌, ◌||◌, List, [], ◌∷◌, ltb, leb, ◌==◌,
  if◌then◌else◌, Option, none, some, Outcome, ok, undefined, ◌>>=◌, length,
}
use neof5client.Base.Int.{ℤ, pos, negsuc}
use neof5client.DaifugoRule.{Rule, rule_a, rule_b}
use neof5client.Neof5Protocol.{Picojson, Player, neof5_protocol}
use neof5client.Neof5Protocol.Turn.{poor_player}
use neof5client.Double.{Double}
use neof5client.SagePlayer.Search.{Sage as SageMembers}
use neof5client.SagePlayer.Class.{new_sage, sage_player}
use neof5client.WsThread.{
  WsThread, Write, Round, WsProtocol, Run, returned, running, WsThreadClass, ws_thread_class,
}

-- libwebsockets: what it writes, whether it makes a context, and the rounds of its service for a
-- host, a port and a path.
pub record Library : Type 0 where
  pub write : Write
  pub create_context : List WsProtocol → Bool
  pub rounds : List ℕ → ℤ → List ℕ → List Round

-- `new DaifugoRuleB()` for a B, else `new DaifugoRuleA()`; the parentheses clear `_isKakumei`.
unfoldable pub new_rule : Bool → Rule
new_rule b = record { class = if b then rule_b else rule_a; is_kakumei = false }

-- `argv[1][0] == 'B'`; an empty text has the 0 byte of its end there.
abbrev pub starts_with_b : List ℕ → Bool
starts_with_b [] = false
starts_with_b (c ∷ cs) = c == b'B'

-- `atoi` of the C library: white space, a sign, and digits up to another character; a value that is no `int` is
-- undefined.
abbrev pub is_space : ℕ → Bool
is_space c = c == 32 || leb 9 c && leb c 13

unfoldable pub skip_space : List ℕ → List ℕ
skip_space [] = []
skip_space (c ∷ cs) = if is_space c then skip_space cs else c ∷ cs

unfoldable pub digits : ℕ → List ℕ → ℕ
digits n [] = n
digits n (c ∷ cs) = if leb b'0' c && leb c b'9' then digits (n * 10 + (c - b'0')) cs else n

abbrev pub signed : List ℕ → Outcome ℤ
signed [] = ok (pos 0)
signed (c ∷ cs) =
    if c == b'-'
    then (let n = digits 0 cs in
        if leb n 2147483648 then ok (if n == 0 then pos 0 else negsuc (n - 1)) else undefined)
    else (let n = digits 0 (if c == b'+' then cs else c ∷ cs) in
        if ltb n 2147483648 then ok (pos n) else undefined)

unfoldable pub atoi : List ℕ → Outcome ℤ
unfolding skip_space digits
atoi s = signed (skip_space s)

-- How `main` stands: it returned, or its loop goes on.
pub data MainRun : Type 0 where
  main_returned : ℤ → MainRun
  main_running : MainRun

abbrev pub main_run : {S : Type 0} → Run S → MainRun
main_run (returned n s w) = main_returned n
main_run (running s w) = main_running

module _ (J : Picojson) (L : Library) where
  -- A `Neof5Protocol` with a player, and a `WsThread` with it and `sendText` as its function to
  -- send, and the call of `run`; `forced` is the static `force_exit` as it stands before.
  abbrev pub serve : Bool → (P : Player) → P.Members → List ℕ → ℤ → List ℕ → Outcome (Run P.Members)
  serve forced P members host port path =
      let wst : WsThreadClass P.Members = ws_thread_class L.write (neof5_protocol J P) in
      wst.run L.create_context (L.rounds host port path) members (wst.new_thread forced)

module _ (D : Double) (clock address random : ℕ → ℕ) where
  open D use {R}

  -- A new `SagePlayer` with the rule; its other members are not set.
  abbrev pub ready_sage : Rule → R → Bool → SageMembers R
  ready_sage unset_rule unset_double b =
      let player = sage_player D clock address random in
      player.set_rule (new_sage unset_rule unset_double) (new_rule b)

module _ (J : Picojson) (L : Library) (D : Double) (clock address random : ℕ → ℕ) where
  open D use {R}

  -- `main` for the words of the command line, the name of the program first. The process begins
  -- with `force_exit` 0.
  unfoldable pub main : Rule → R → List (List ℕ) → Outcome MainRun
  unfolding new_rule
  main unset_rule unset_double (name ∷ rule ∷ host ∷ port ∷ path ∷ []) = do
    let members = ready_sage D clock address random unset_rule unset_double (starts_with_b rule)
    port' ← atoi port
    r ← serve J L false (sage_player D clock address random) members host port' path
    ok (main_run r)
  main unset_rule unset_double argv = ok (main_returned (pos 1))

-- The Java runtime: the characters of a string at the first and later calls of
-- `GetStringUTFChars`, where it has memory for them; and the static `force_exit` of the library as
-- earlier calls of `jnimain` left it.
pub record Jni : Type 1 where
  pub Jstring : Type 0
  pub get_string_utf_chars : ℕ → Jstring → Option (List ℕ)
  pub forced : Bool

-- What `jnimain` has in hand: the characters of `host` and of `path` that are not released, and how
-- many players were not deleted.
pub record Held : Type 0 where
  pub host_chars : Bool
  pub path_chars : Bool
  pub players : ℕ

-- How `jnimain` stands: it returned, or its loop goes on.
pub data JniRun : Type 0 where
  jni_returned : ℤ → Held → JniRun
  jni_running : Held → JniRun

abbrev pub is_int : ℕ → ℤ → Bool
is_int n (pos k) = k == n
is_int n (negsuc k) = false

-- The end of `jnimain` after `run`: `delete player` is for a pointer to `IPlayer`, which has no
-- virtual destructor, and the object is of a class below it: that is undefined.
unfoldable pub jni_end : {S : Type 0} → Held → Run S → Outcome JniRun
jni_end held (returned n s w) = undefined
jni_end held (running s w) = ok (jni_running held)

module _ (J : Picojson) (L : Library) (E : Jni) where
  open E use {Jstring, get_string_utf_chars, forced}

  -- `jnimain` once the player is made and has its rule.
  unfoldable pub jni_serve : (P : Player) → P.Members → Jstring → ℤ → Jstring → Outcome JniRun
  unfolding jni_end
  jni_serve P members host port path =
      let held : Held = record { host_chars = false; path_chars = false; players = 1 } in
      elim (get_string_utf_chars 0 host) [
        | none ↦ ok (jni_returned (negsuc 0) held)
        | some c_host ↦ elim (get_string_utf_chars 1 path) [
          | none ↦ ok (jni_returned (negsuc 1) (record held { host_chars = false }))
          | some c_path ↦ do
            r ← serve J L forced P members c_host port c_path
            jni_end (record held { host_chars = true; path_chars = true }) r
        ]
      ]

module _ (J : Picojson) (L : Library) (E : Jni) (D : Double) (clock address random : ℕ → ℕ) where
  open D use {R}

  -- `jnimain`.
  unfoldable pub jni_main : Rule → R → ℤ → ℤ → E.Jstring → ℤ → E.Jstring → Outcome JniRun
  unfolding jni_serve new_rule
  jni_main unset_rule unset_double player_level rule_ab host port path =
      let b = is_int b'B' rule_ab in
      elim (is_int 1 player_level) [
        | true ↦
            jni_serve J L E poor_player (poor_player.set_rule unset_rule (new_rule b)) host port
              path
        | false ↦
            jni_serve J L E (sage_player D clock address random)
              (ready_sage D clock address random unset_rule unset_double b) host port path
      ]
