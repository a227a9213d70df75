-- ===== src/CardSet/Joker.antt =====
-- A set without its joker, as `extractJoker` leaves it.
use neof5client.Base.{ℕ, ◌<◌, ◌≡◌, ◌∙◌, false, arith, if◌then◌else◌, ok}
use neof5client.CardSet.{CardSet, extract_joker, remove_card}
use neof5client.CardSet.Members.{IsValid, member, member-remove_card}
use neof5client.CardSet.Numbers.{joker, extract_joker_lem}
use neof5client.CardSet.Contract.{extract_joker-IsValid}

-- What is left when the joker, if there is one, is taken out.
abbrev pub rest_of : CardSet → CardSet
rest_of s = if member s 52 then remove_card s joker else s

abbrev pub jokers_of : CardSet → ℕ
jokers_of s = if member s 52 then 1 else 0

pub extract_rest : (s : CardSet) → extract_joker s ≡ ok (jokers_of s, rest_of s)
extract_rest s = extract_joker_lem s ∙ ground arith

pub rest_of-IsValid : (s : CardSet) → IsValid s → IsValid (rest_of s)
rest_of-IsValid s v = ground (arith, extract_joker-IsValid s v)

pub no_joker_left : (s : CardSet) → IsValid s → member (rest_of s) 52 ≡ false
no_joker_left s v = ground (arith, member-remove_card s joker 52 v (omega arith))

pub others_left : (s : CardSet) (j : ℕ) → IsValid s → j < 52 → member (rest_of s) j ≡ member s j
others_left s j v lt = ground (arith, member-remove_card s joker j v (omega arith))
