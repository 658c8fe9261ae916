-- ===== src/Music/Letter/Every.antt =====
-- A test that every letter of crates/music-domain/src/pitch.rs passes.
use reapermcp.Prelude.{Bool, ◌≡◌, ◌&&◌, true, arith}
use reapermcp.Music.Letter.{Letter, c, d, e, f, g, a, b}

unfoldable pub every : (Letter → Bool) → Bool
every t = t c && t d && t e && t f && t g && t a && t b

pub every_lem : (t : Letter → Bool) → every t ≡ true → (l : Letter) → t l ≡ true
unfolding every
every_lem t h c = ground (arith, h)
every_lem t h d = ground (arith, h)
every_lem t h e = ground (arith, h)
every_lem t h f = ground (arith, h)
every_lem t h g = ground (arith, h)
every_lem t h a = ground (arith, h)
every_lem t h b = ground (arith, h)

pub every_pair :
    (t : Letter → Letter → Bool) → every (λ l. every (t l)) ≡ true → (l m : Letter) → t l m ≡ true
every_pair t h l m = every_lem (t l) (every_lem (λ l. every (t l)) h l) m
