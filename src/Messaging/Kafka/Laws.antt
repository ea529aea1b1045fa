-- ===== src/Messaging/Kafka/Laws.antt =====
-- What the Kafka consumer of pkg/messaging/kafka/consumer.go does to the group's offset.
use wapgo.Base.{
  ℕ, ◌+◌, ◌≤◌, ◌<◌, ◌≡◌, inl, inr, refl, ap, sym, ◌∙◌, Bool, true, false, All, List, [], ◌∷◌, ◌++◌,
  arith, Bool-cases,
}
use mathlib.Core.Path.{subst}
use wapgo.Messaging.Backoff.{second, max_wait, doubled}
use wapgo.Messaging.Kafka.{Event, fetch_failed, fetched, Consumer, process, step, begin, start}

-- The consumer waits between one and thirty seconds.
pub record IsWaiting (c : Consumer) : Type 0 where
  pub low : second ≤ c.bo
  pub high : c.bo ≤ max_wait

step-IsWaiting : (e : Event) (c : Consumer) → IsWaiting c → IsWaiting (step e c)
unfolding step process doubled
step-IsWaiting (fetch_failed over cancelled) c w = record {
  low = ground (arith, w.low);
  high = ground (arith, w.high);
}
step-IsWaiting (fetched offset handler_ok commit_ok) c w = record {
  low = ground (arith, w.low);
  high = ground (arith, w.high);
}

start_stopped :
    (e : Event) (es : List Event) (c : Consumer) → c.stopped ≡ true → start (e ∷ es) c ≡ c
unfolding start
start_stopped e es c over = ground arith

start_on :
    (e : Event) (es : List Event) (c : Consumer)
    → c.stopped ≡ false
    → start (e ∷ es) c ≡ start es (step e c)
unfolding start
start_on e es c on = ground arith

-- Whatever the broker does, the wait between fetches stays between one and thirty seconds.
pub start-IsWaiting : (es : List Event) (c : Consumer) → IsWaiting c → IsWaiting (start es c)
unfolding start
start-IsWaiting [] c w = w
start-IsWaiting (e ∷ es) c w = elim (Bool-cases c.stopped) [
  | inl over ↦ rw (start_stopped e es c over) w
  | inr on ↦ rw (start_on e es c on) (start-IsWaiting es (step e c) (step-IsWaiting e c w))
]

start_over : (es : List Event) (c : Consumer) → c.stopped ≡ true → start es c ≡ c
unfolding start
start_over [] c over = refl
start_over (e ∷ es) c over = start_stopped e es c over

start-append : (es fs : List Event) (c : Consumer) → start (es ++ fs) c ≡ start fs (start es c)
unfolding start
start-append [] fs c = refl
start-append (e ∷ es) fs c = elim (Bool-cases c.stopped) [
  | inl over ↦
      start_stopped e (es ++ fs) c over
      ∙ sym (ap (λ d. start fs d) (start_stopped e es c over) ∙ start_over fs c over)
  | inr on ↦
      start_on e (es ++ fs) c on
      ∙ start-append es fs (step e c)
      ∙ sym (ap (λ d. start fs d) (start_on e es c on))
]

start_success :
    (o : ℕ) (c : Consumer)
    → c.stopped ≡ false
    → (start (fetched o true true ∷ []) c).committed ≡ o + 1
unfolding start step process
start_success o c on = ground arith

-- What a reader of a group is given of a partition: its offsets go up, from the group's committed
-- offset when the reader began.
abbrev pub IsServed : ℕ → List Event → Type 0
IsServed from [] = Unit
IsServed from (fetch_failed over cancelled ∷ es) = IsServed from es
IsServed from (fetched offset handler_ok commit_ok ∷ es) =
    (from ≤ offset) × IsServed (offset + 1) es

After-append :
    (o x : ℕ) (xs : List ℕ) → All (λ y. o < y) xs → o < x → All (λ y. o < y) (xs ++ x ∷ [])
After-append o x [] h l = (l, tt)
After-append o x (y ∷ ys) h l = (h.0, After-append o x ys h.1 l)

process-handled :
    (offset : ℕ) (handler_ok commit_ok : Bool) (c : Consumer)
    → (process offset handler_ok commit_ok c).handled ≡ c.handled ++ offset ∷ []
unfolding process
process-handled offset handler_ok commit_ok c = ground arith

failed-handled :
    (over cancelled : Bool) (c : Consumer)
    → (step (fetch_failed over cancelled) c).handled ≡ c.handled
unfolding step
failed-handled over cancelled c = ground arith

kept_on :
    (o : ℕ) (e : Event) (es : List Event) (c : Consumer)
    → All (λ x. o < x) c.handled
    → All (λ x. o < x) (start es (step e c)).handled
    → All (λ x. o < x) (start (e ∷ es) c).handled
kept_on o e es c h k = elim (Bool-cases c.stopped) [
  | inl over ↦
      subst (λ (d : Consumer). All (λ x. o < x) d.handled) (sym (start_stopped e es c over)) h
  | inr on ↦ subst (λ (d : Consumer). All (λ x. o < x) d.handled) (sym (start_on e es c on)) k
]

-- A reader that is served from behind an offset does not handle its message.
handled_after :
    (o from : ℕ) (es : List Event) (c : Consumer)
    → o < from
    → IsServed from es
    → All (λ x. o < x) c.handled
    → All (λ x. o < x) (start es c).handled
unfolding start step
handled_after o from [] c l served h = h
handled_after o from (fetch_failed over cancelled ∷ es) c l served h =
    kept_on o (fetch_failed over cancelled) es c h (
      handled_after o from es (step (fetch_failed over cancelled) c) l served
        (rw (failed-handled over cancelled c) h))
handled_after o from (fetched offset handler_ok commit_ok ∷ es) c l served h =
    kept_on o (fetched offset handler_ok commit_ok) es c h (
      handled_after o (offset + 1) es (step (fetched offset handler_ok commit_ok) c)
        (omega (arith, served.0)) served.1
        (rw (process-handled offset handler_ok commit_ok c)
          (After-append o offset c.handled h (omega (arith, served.0)))))

-- The offset of the second message is behind that of the first.
served_later :
    (from o' : ℕ) (ok commit : Bool) (es : List Event)
    → IsServed from (es ++ fetched o' ok commit ∷ [])
    → from ≤ o'
served_later from o' ok commit [] s = s.0
served_later from o' ok commit (fetch_failed over cancelled ∷ es) s =
    served_later from o' ok commit es s
served_later from o' ok commit (fetched offset handler_ok commit_ok ∷ es) s =
    omega (arith, s.0, served_later (offset + 1) o' ok commit es s.1)

-- A message whose handler fails leaves the group's offset where it was, but it is lost once a later
-- message of the partition succeeds and is committed, whatever happened in between: a consumer that
-- begins after a restart, and is served from the committed offset on, handles only messages behind
-- it.
pub failed_is_skipped :
    (o o' : ℕ) (commit_ok : Bool) (es later : List Event) (c : Consumer)
    → c.stopped ≡ false
    → (start (fetched o false commit_ok ∷ es) c).stopped ≡ false
    → IsServed o ((fetched o false commit_ok ∷ es) ++ fetched o' true true ∷ [])
    → IsServed
        (start ((fetched o false commit_ok ∷ es) ++ fetched o' true true ∷ []) c).committed
        later
    → let c' = start ((fetched o false commit_ok ∷ es) ++ fetched o' true true ∷ []) c in
      ((step (fetched o false commit_ok) c).committed ≡ c.committed)
      × All (λ x. o < x) (start later (begin c'.committed)).handled
unfolding step process
failed_is_skipped o o' commit_ok es later c on running served again =
    let failed = fetched o false commit_ok ∷ es in
    let c' = start (failed ++ fetched o' true true ∷ []) c in
    let behind : o < o' = omega (arith, served_later (o + 1) o' true true es served.1) in
    let passed : o < c'.committed = omega (
      arith,
      start_success o' (start failed c) running,
      ap (λ d. d.committed) (start-append failed (fetched o' true true ∷ []) c),
    ) in
    (refl, handled_after o c'.committed later (begin c'.committed) passed again tt)
