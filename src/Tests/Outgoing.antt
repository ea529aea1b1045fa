-- ===== src/Tests/Outgoing.antt =====
-- The outgoing client on concrete answers of the network.
use wapgo.Base.{
  ℕ, zero, suc, ◌+◌, ◌<◌, ◌≡◌, refl, true, false, Option, none, some, List, [], ◌∷◌, ok, arith,
  if◌then◌else◌, ◌==◌,
}
use wapgo.Base.Int.{pos}
use wapgo.Base.Text.{Text, codes}
use wapgo.HttpClient.Retry.{NetError, Outcome, responded, failed, no_body, Exchange, round_trip}
use wapgo.HttpClient.Retry.Laws.{IsTransient, round_trip_recovers}
use wapgo.HttpClient.Ssrf.{Ip, quad, guarded_dial}
use wapgo.HttpClient.Ssrf.Laws.{IsDialled, guarded_dial-IsDialled}

abbrev timeout : NetError
timeout = record { is_context = false; is_timeout = true }

-- A timeout, a 503, and then 200.
abbrev replies : ℕ → Outcome
replies i = if i == 0 then failed timeout else (if i == 1 then responded 503 else responded 200)

abbrev exchange : Exchange
exchange = record {
  body = no_body;
  get_body_fails = λ i. false;
  ended = λ i. none;
  reply = replies;
}

transient : (i : ℕ) → i < 2 → IsTransient (exchange.reply i)
transient zero h = (refl, refl)
transient (suc zero) h = omega arith
transient (suc (suc i)) h = absurd (omega arith)

round_trip_recovers_example : round_trip (pos 3) exchange ≡ (ok 200, 2 + 1)
round_trip_recovers_example =
    round_trip_recovers 3 exchange 2 200 (omega arith) tt (λ i. refl) (λ i. refl) transient refl
      (omega arith)

abbrev resolver : Text → Option (List Ip)
resolver host = some (quad 93 184 216 34 ∷ [])

guarded_dial-IsDialled_example :
    IsDialled {C = ℕ}
      (λ a. some a)
      resolver
      (λ ip. some 5)
      false
      (codes "example.org")
      (quad 93 184 216 34)
      5
unfolding guarded_dial
guarded_dial-IsDialled_example =
    guarded_dial-IsDialled {C = ℕ} (λ a. some a) resolver (λ ip. some 5) false (codes "example.org")
      (quad 93 184 216 34) 5 refl
