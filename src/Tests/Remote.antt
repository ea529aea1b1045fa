-- ===== src/Tests/Remote.antt =====
-- Redis as a function from keys, in place of the server.
use wapgo.Base.{
  ℕ, ◌+◌, ◌-◌, ◌*◌, ◌/◌, ◌<◌, ◌≤◌, ◌≡◌, ◌≢◌, refl, Bool, true, false, Option, none, some, [], ltb,
  if◌then◌else◌, arith, inl,
}
use wapgo.Base.Int.{ℤ, pos}
use wapgo.Base.Text.{Text, codes, text_eq, text_eq_iff, text_eq_refl}
use wapgo.Redis.{Client, IsClient}
use wapgo.Auth.MemoryBlacklist as Memory
use wapgo.Auth.MemoryBlacklist.{new_memory_blacklist}
use wapgo.Auth.MemoryBlacklist.Laws.{IsValid}
use wapgo.Auth.RedisBlacklist.{revoke, is_revoked}
use wapgo.Auth.RedisBlacklist.Laws.{revoke_same}
use wapgo.RateLimit.Redis.{Commands, RedisLimiter, millisecond}
use wapgo.RateLimit.Redis.Laws.{IsCommands}

-- The expiry of a key.
abbrev Keys : Type 0
Keys = Text → Option ℕ

abbrev is_live : ℕ → Option ℕ → Bool
is_live t none = false
is_live t (some e) = ltb t e

abbrev client : Client Keys
client = record {
  set = λ now k ttl s. (true, λ j. if text_eq k j then some (now + ttl) else s j);
  exists = λ now k s. some (if is_live now (s k) then 1 else 0);
}

abbrev client_laws : IsClient client
client_laws = record {
  live = λ t s k. is_live t (s k);
  set_ok = λ now k ttl s. refl;
  set_live = λ now t k ttl s p h early. rw (text_eq_refl k) (ground arith);
  set_over = λ now t k ttl s p late. rw (text_eq_refl k) (ground arith);
  set_other = λ now t k j ttl s other h. rw other;
  exists_live = λ now k s. refl;
}

abbrev no_keys : Keys
no_keys k = none

list-IsValid : IsValid new_memory_blacklist
unfolding new_memory_blacklist
list-IsValid = tt

named : codes "j" ≢ []
named h = ground (arith, text_eq_iff (codes "j") [], h)

revoke_same_example :
    is_revoked client 5 (codes "j") (revoke client 2 (codes "j") 9_000_000 no_keys).1
    ≡ (Memory.is_revoked 5
        (codes "j")
        (Memory.revoke 2 (codes "j") 9_000_000 new_memory_blacklist).1).0
unfolding Memory.is_revoked is_revoked new_memory_blacklist
revoke_same_example =
    revoke_same client client_laws 2 5 (codes "j") (codes "j") 9_000_000 no_keys
      new_memory_blacklist list-IsValid named (omega arith) (omega arith) (inl (omega arith)) refl

-- A number and its expiry.
abbrev Counter : Type 0
Counter = ℕ × Option ℕ

abbrev Counters : Type 0
Counters = Text → Counter

abbrev count_at : ℕ → Counter → ℕ
count_at t (n, none) = n
count_at t (n, some e) = if ltb t e then n else 0

abbrev raised : ℕ → Counter → Counter
raised t (n, none) = (n + 1, none)
raised t (n, some e) = if ltb t e then (n + 1, some e) else (1, none)

abbrev left : ℕ → Counter → ℤ
left t (n, none) = pos 0
left t (n, some e) = pos ((e - t) / millisecond)

abbrev at_key : Text → Counter → Counters → Counters
at_key k c s j = if text_eq k j then c else s j

abbrev commands : Commands Counters
commands = record {
  reachable = λ now s. true;
  incr = λ now k s. (count_at now (s k) + 1, at_key k (raised now (s k)) s);
  pexpire = λ now k ms s. at_key k (count_at now (s k), some (now + ms * millisecond)) s;
  pttl = λ now k s. left now (s k);
}

raised_now : (now : ℕ) (c : Counter) → count_at now (raised now c) ≡ count_at now c + 1
raised_now now (n, none) = refl
raised_now now (n, some e) = ground arith

raised_kept :
    (now t : ℕ) (c : Counter)
    → now ≤ t
    → 0 < count_at t c
    → count_at t (raised now c) ≡ count_at now c + 1
raised_kept now t (n, none) h p = refl
raised_kept now t (n, some e) h p = ground arith

in_time : (t e n : ℕ) → t < e → count_at t (n, some e) ≡ n
in_time t e n h = ground arith

abbrev commands_laws : IsCommands commands
commands_laws = record {
  count = λ t s k. count_at t (s k);
  reaches = λ now s. refl;
  incr_count = λ now k s. refl;
  incr_kept = λ now t k s h p. rw (text_eq_refl k) (raised_kept now t (s k) h p);
  pexpire_count = λ now t k ms s h early.
      rw (text_eq_refl k) (in_time t (now + ms * millisecond) (count_at now (s k)) early);
  incr_now = λ now k s. rw (text_eq_refl k) (raised_now now (s k));
}

abbrev limiter : RedisLimiter
limiter = record { prefix = codes "rl"; max = 2; window = 1000 * millisecond }

abbrev no_counters : Counters
no_counters k = (0, none)
