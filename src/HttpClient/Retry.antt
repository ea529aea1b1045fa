-- ===== src/HttpClient/Retry.antt =====
-- `retryTransport` of pkg/httpclient/middleware.go. The network and the caller's context are
-- answers by attempt: what the inner transport returns to the request that is sent as number `i`
-- (from 0), and whether the context ends while attempt `i` waits. A status is a number; draining a
-- response's body is left out, and so is the length of the waits, which double from the base delay
-- on.
pub mod Laws
use wapgo.Base.{
  ℕ, suc, zero, ◌+◌, ◌-◌, ◌*◌, ◌^◌, Bool, true, false, not, ◌&&◌, ◌||◌, Option, none, some, ltb,
  ◌==◌, if◌then◌else◌, Result, ok, err,
}
use wapgo.Base.Int.{ℤ, pos, pos_part, ltb_ℤ}

-- What the code asks of an error: whether it is the context's own, and whether it is a timeout of
-- the network.
pub record NetError : Type 0 where
  pub is_context : Bool
  pub is_timeout : Bool

pub data Outcome : Type 0 where
  responded : ℕ → Outcome
  failed : NetError → Outcome

-- A body that cannot be read again, or none, or one that `GetBody` gives afresh (or fails to).
pub data Body : Type 0 where
  no_body once replayable : Body

pub record Exchange : Type 0 where
  pub body : Body
  pub get_body_fails : ℕ → Bool
  pub ended : ℕ → Option NetError
  pub reply : ℕ → Outcome

pub data Failure : Type 0 where
  reset_body : Failure
  context_ended : NetError → Failure
  not_retried : NetError → Failure
  transport : NetError → Failure
  server : ℕ → Failure

-- What happens before an attempt: it goes on, the loop is left, or the call ends.
pub data Gate : Type 0 where
  go leave : Gate
  return : Failure → Gate

unfoldable pub is_retryable_err : NetError → Bool
is_retryable_err e = if e.is_context then false else e.is_timeout

abbrev pub wait : Exchange → ℕ → Gate
wait x attempt = elim (x.ended attempt) [ none ↦ go | some e ↦ return (context_ended e) ]

unfoldable pub gate : Exchange → ℕ → Gate
gate x attempt = if attempt == 0 then go else (elim x.body [
  | no_body ↦ wait x attempt
  | once ↦ leave
  | replayable ↦ if x.get_body_fails attempt then return reset_body else wait x attempt
])

-- The answer that ends the loop, or `none` for one that is tried again.
unfoldable pub settled : Outcome → Option (Result Failure ℕ)
unfolding is_retryable_err
settled (responded status) = if ltb status 500 then some (ok status) else none
settled (failed e) = if is_retryable_err e then none else some (err (not_retried e))

abbrev pub last_err : Outcome → Option NetError → Option NetError
last_err (responded status) last = last
last_err (failed e) last = some e

abbrev pub last_status : Outcome → ℕ → ℕ
last_status (responded status) last = status
last_status (failed e) last = last

-- What is returned after the loop.
abbrev pub exhausted : Option NetError → ℕ → Result Failure ℕ
exhausted (some e) status = err (transport e)
exhausted none status = err (server status)

-- The loop with so many attempts left, from this one on, and the number of requests sent in all.
unfoldable pub attempts : Exchange → ℕ → ℕ → Option NetError → ℕ → Result Failure ℕ × ℕ
unfolding gate settled
attempts x zero attempt last status = (exhausted last status, attempt)
attempts x (suc n) attempt last status =
    let o = x.reply attempt in
    let rest = attempts x n (attempt + 1) (last_err o last) (last_status o status) in
    elim (gate x attempt) [
      | leave ↦ (exhausted last status, attempt)
      | return f ↦ (err f, attempt)
      | go ↦ elim (settled o) [ some r ↦ (r, attempt + 1) | none ↦ rest ]
    ]

-- `attempt <= t.maxRetries`, from 0
abbrev pub allowance : ℤ → ℕ
allowance max_retries = if ltb_ℤ max_retries (pos 0) then 0 else pos_part max_retries + 1

unfoldable pub round_trip : ℤ → Exchange → Result Failure ℕ × ℕ
unfolding attempts
round_trip max_retries x = attempts x (allowance max_retries) 0 none 0
