-- ===== src/HttpClient/Retry/Laws.antt =====
-- What a caller gets from the retrying transport of pkg/httpclient/middleware.go.
use wapgo.Base.{
  ℕ, suc, zero, ◌+◌, ◌≤◌, ◌<◌, ◌≡◌, ◌≢◌, refl, sym, ap, ◌∙◌, true, false, Option, none, some, ltb,
  Result, ok, arith, Option-cases, Bool-cases, inl, inr, ◌⊎◌,
}
use wapgo.Base.Int.{ℤ, pos}
use wapgo.HttpClient.Retry.{
  NetError, Outcome, responded, failed, Body, no_body, once, replayable, Exchange, Failure, Gate,
  go, leave, return, gate, settled, attempts, allowance, round_trip, exhausted, last_err,
  last_status,
}

gate-cases : (g : Gate) → (g ≡ go) ⊎ ((g ≡ leave) ⊎ ((f : Failure) × (g ≡ return f)))
gate-cases go = inl refl
gate-cases leave = inr (inl refl)
gate-cases (return f) = inr (inr (f, refl))

module _ (x : Exchange) where
  attempts-settled :
      (n a status : ℕ) (last : Option NetError) (r : Result Failure ℕ)
      → gate x a ≡ go
      → settled (x.reply a) ≡ some r
      → attempts x (suc n) a last status ≡ (r, a + 1)
  unfolding attempts
  attempts-settled n a status last r gates done = ground arith

  attempts_again :
      (n a status : ℕ) (last : Option NetError)
      → gate x a ≡ go
      → settled (x.reply a) ≡ none
      → attempts x (suc n) a last status
        ≡ attempts x n (a + 1) (last_err (x.reply a) last) (last_status (x.reply a) status)
  unfolding attempts
  attempts_again n a status last gates again = ground arith

  -- From attempt `a` on, with `n` left, the answer to request `j` is the first that settles.
  attempts_recover :
      (n a j status : ℕ) (last : Option NetError) (r : Result Failure ℕ)
      → a ≤ j
      → j < a + n
      → ((i : ℕ) → i ≤ j → gate x i ≡ go)
      → ((i : ℕ) → i < j → settled (x.reply i) ≡ none)
      → settled (x.reply j) ≡ some r
      → attempts x n a last status ≡ (r, j + 1)
  attempts_recover zero a j status last r h k gates again done = absurd (omega arith)
  attempts_recover (suc n) a j status last r h k gates again done = elim (Bool-cases (ltb a j)) [
    | inl before ↦
        attempts_again n a status last (gates a h) (again a (ground arith))
        ∙ attempts_recover n (a + 1) j (last_status (x.reply a) status) (last_err (x.reply a) last)
            r (ground arith) (omega arith) gates again done
    | inr reached ↦
        let same : a ≡ j = ground arith in
        rw (← same) (attempts-settled n a status last r (gates a h) (rw (← same) at done))
  ]

  -- A response that is returned has a status below 500 and is the answer to the last request sent;
  -- every request before it was answered by a timeout or a status from 500 on.
  pub record IsAnswered (a sent status : ℕ) : Type 0 where
    pub last : ℕ
    pub sent_last : sent ≡ last + 1
    pub from_start : a ≤ last
    pub replied : x.reply last ≡ responded status
    pub fine : status < 500
    pub tried : (i : ℕ) → (i < a) ⊎ ((last ≤ i) ⊎ (settled (x.reply i) ≡ none))

  settled_status :
      (o : Outcome) (status : ℕ)
      → settled o ≡ some (ok status)
      → (o ≡ responded status) × (status < 500)
  unfolding settled
  settled_status (responded s) status h = ground arith
  settled_status (failed e) status h = absurd (ground arith)

  exhausted-err : (last : Option NetError) (s status : ℕ) → exhausted last s ≢ ok status
  exhausted-err none s status h = cc
  exhausted-err (some e) s status h = cc

  later :
      (a sent status : ℕ)
      → settled (x.reply a) ≡ none
      → IsAnswered (a + 1) sent status
      → IsAnswered a sent status
  later a sent status again y = record {
    last = y.last;
    sent_last = y.sent_last;
    from_start = omega (arith, y.from_start);
    replied = y.replied;
    fine = y.fine;
    tried = λ i. grind (arith, y.tried i, again);
  }

  attempts-IsAnswered :
      (n a s sent status : ℕ) (last : Option NetError)
      → attempts x n a last s ≡ (ok status, sent)
      → IsAnswered a sent status
  unfolding attempts
  attempts-IsAnswered zero a s sent status last h =
      absurd (exhausted-err last s status (ap (λ p. p.0) h))
  attempts-IsAnswered (suc n) a s sent status last h = elim (gate-cases (gate x a)) [
    | inr (inl left) ↦
        absurd (exhausted-err last s status (ap (λ p. p.0) (rw (left, attempts) at h)))
    | inr (inr (f, ended)) ↦ absurd (ground arith)
    | inl opened ↦ elim (Option-cases (settled (x.reply a))) [
      | inl again ↦ later a sent status again (
          attempts-IsAnswered n (a + 1) (last_status (x.reply a) s) sent status
            (last_err (x.reply a) last) (sym (attempts_again n a s last opened again) ∙ h))
      | inr (r, done) ↦
          let same = sym (attempts-settled n a s last r opened done) ∙ h in
          let (replied, fine) =
            settled_status (x.reply a) status (done ∙ ap (λ p. some p.0) same) in
          record {
            last = a;
            sent_last = sym (ap (λ p. p.1) same);
            from_start = omega arith;
            replied = replied;
            fine = fine;
            tried = λ i. ground arith;
          }
    ]
  ]

  attempts_sent : (n a s : ℕ) (last : Option NetError) → (attempts x n a last s).1 ≤ a + n
  unfolding attempts
  attempts_sent zero a s last = omega arith
  attempts_sent (suc n) a s last =
      ground
        (arith, attempts_sent n (a + 1) (last_status (x.reply a) s) (last_err (x.reply a) last))

-- An answer that is worth another attempt: a timeout that is not the context's own, or a status
-- from 500 on.
abbrev pub IsTransient : Outcome → Type 0
IsTransient (responded status) = 500 ≤ status
IsTransient (failed e) = (e.is_context ≡ false) × (e.is_timeout ≡ true)

-- A body that can be sent again.
abbrev pub IsRepeatable : Body → Type 0
IsRepeatable no_body = Unit
IsRepeatable once = ⊥
IsRepeatable replayable = Unit

gate_goes :
    (x : Exchange) (i : ℕ)
    → IsRepeatable x.body
    → x.get_body_fails i ≡ false
    → x.ended i ≡ none
    → gate x i ≡ go
unfolding gate
gate_goes x i body read on = from_body x.body refl body
  where
    from_body : (b : Body) → x.body ≡ b → IsRepeatable b → gate x i ≡ go
    from_body no_body same h = ground arith
    from_body once same h = absurd h
    from_body replayable same h = ground arith

transient_unsettled : (o : Outcome) → IsTransient o → settled o ≡ none
unfolding settled
transient_unsettled (responded status) h = ground arith
transient_unsettled (failed e) h = ground arith

-- A transient failure is retried: with `n` retries configured, if request number `k`, of the first
-- `n + 1`, is answered with a status below 500, all before it time out or are answered from 500 on,
-- the body can be sent again, and the context does not end, then the call ends with that status,
-- after `k + 1` requests.
pub round_trip_recovers :
    (n : ℕ) (x : Exchange) (k status : ℕ)
    → k ≤ n
    → IsRepeatable x.body
    → ((i : ℕ) → x.get_body_fails i ≡ false)
    → ((i : ℕ) → x.ended i ≡ none)
    → ((i : ℕ) → i < k → IsTransient (x.reply i))
    → x.reply k ≡ responded status
    → status < 500
    → round_trip (pos n) x ≡ (ok status, k + 1)
unfolding round_trip settled
round_trip_recovers n x k status h body read on again answered fine =
    attempts_recover x (allowance (pos n)) 0 k 0 none (ok status) (omega arith) (ground arith)
      (λ i l. gate_goes x i body (read i) (on i))
      (λ i l. transient_unsettled (x.reply i) (again i l)) (rw answered (ground arith))

-- A response that is returned has a status below 500 and is the answer to the last request sent,
-- all requests before it were answered by a timeout or a status from 500 on, and no more were sent
-- than the configured retries and one.
pub round_trip-IsAnswered :
    (max : ℤ) (x : Exchange) (status sent : ℕ)
    → round_trip max x ≡ (ok status, sent)
    → IsAnswered x 0 sent status × (sent ≤ allowance max)
unfolding round_trip
round_trip-IsAnswered max x status sent h = (
  attempts-IsAnswered x (allowance max) 0 0 sent status none h,
  omega (arith, attempts_sent x (allowance max) 0 0 none, ap (λ p. p.1) h),
)

attempts_stuck :
    (x : Exchange) (n a s : ℕ) (last : Option NetError)
    → x.body ≡ once
    → 0 < a
    → (attempts x n a last s).1 ≡ a
unfolding attempts gate
attempts_stuck x zero a s last h p = refl
attempts_stuck x (suc n) a s last h p = ground arith

attempts_first : (x : Exchange) (n : ℕ) → x.body ≡ once → (attempts x n 0 none 0).1 ≤ 1
unfolding attempts gate
attempts_first x zero h = omega arith
attempts_first x (suc n) h = ground (
  arith,
  attempts_stuck x n 1 (last_status (x.reply 0) 0) (last_err (x.reply 0) none) h (omega arith),
)

-- A request whose body cannot be read again is sent at most once.
pub round_trip_once : (max : ℤ) (x : Exchange) → x.body ≡ once → (round_trip max x).1 ≤ 1
unfolding round_trip
round_trip_once max x h = attempts_first x (allowance max) h
