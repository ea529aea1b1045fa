-- ===== src/Redis.antt =====
-- The Redis client (go-redis) as the parameter of what is stored in Redis: the commands that
-- pkg/auth/blacklist.go sends, at a time. `none` and `false` stand for a client that fails.
use wapgo.Base.{ℕ, ◌+◌, ◌^◌, ◌≤◌, ◌≡◌, Bool, true, false, Option, some, if◌then◌else◌}
use wapgo.Base.Text.{Text, text_eq}

pub record Client (S : Type 0) : Type 0 where
  pub set : ℕ → Text → ℕ → S → Bool × S
  pub exists : ℕ → Text → S → Option ℕ

abbrev pub millisecond : ℕ
millisecond = 10 ^ 6

-- A server that is reachable: a key that is set is there until its lifetime is over, other keys are
-- not touched, and `EXISTS` counts the key if it is there. go-redis cuts a lifetime to whole
-- milliseconds, and so does Redis with the time, so nothing is said of a lifetime below a
-- millisecond and of the last millisecond before, and the first one after, the end of a longer one.
pub record IsClient {S : Type 0} (client : Client S) : Type 0 where
  pub live : ℕ → S → Text → Bool
  pub set_ok : (now : ℕ) (k : Text) (ttl : ℕ) (s : S) → (client.set now k ttl s).0 ≡ true
  pub set_live :
      (now t : ℕ) (k : Text) (ttl : ℕ) (s : S)
      → millisecond ≤ ttl
      → now ≤ t
      → t + millisecond ≤ now + ttl
      → live t (client.set now k ttl s).1 k ≡ true
  pub set_over :
      (now t : ℕ) (k : Text) (ttl : ℕ) (s : S)
      → millisecond ≤ ttl
      → now + ttl + millisecond ≤ t
      → live t (client.set now k ttl s).1 k ≡ false
  pub set_other :
      (now t : ℕ) (k j : Text) (ttl : ℕ) (s : S)
      → text_eq k j ≡ false
      → now ≤ t
      → live t (client.set now k ttl s).1 j ≡ live t s j
  pub exists_live :
      (now : ℕ) (k : Text) (s : S) → client.exists now k s ≡ some (if live now s k then 1 else 0)
