-- ===== src/Client/Return.antt =====
-- What `jnimain` keeps when it returns.
use neof5client.Base.{ℕ, ◌≡◌, ◌≢◌, false, List, ok, Option, none, some, Outcome, ◌>>=◌}
use neof5client.Base.Int.{ℤ, negsuc}
use neof5client.Double.{Double}
use neof5client.Client.{JniRun, Held, jni_returned}

-- No characters are held, but the player is lost.
abbrev pub player_lost : Held
player_lost = record { host_chars = false; path_chars = false; players = 1 }

-- How `jnimain` may return, for the characters of the two strings.
abbrev pub Returns : Option (List ℕ) → Option (List ℕ) → Outcome JniRun → Type 0
Returns none path o = o ≡ ok (jni_returned (negsuc 0) player_lost)
Returns (some host) none o = o ≡ ok (jni_returned (negsuc 1) player_lost)
Returns (some host) (some path) o = (n : ℤ) (held : Held) → o ≢ ok (jni_returned n held)
