-- ===== src/Client/Main.antt =====
-- The program `main`: its arguments, and its run with a `SagePlayer`.
use neof5client.Double.{Double}
use neof5client.SagePlayer.Search.{Sage as SageMembers}
