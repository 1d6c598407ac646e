-- ===== src/Config/Tests.antt =====
-- A configuration file, and the theorem of this part at it.
use my_redis.Prelude.{List, [], ◌∷◌}
use my_redis.Prelude.Text.{codes}
use my_redis.Config.Files.{Line, pair, comment, blank}

abbrev file : List Line
file =
    comment (codes " myredis.conf")
    ∷ pair (codes "port") (codes "7000")
    ∷ blank (codes "  ")
    ∷ pair (codes "requirepass") (codes "a secret")
    ∷ []
