-- ===== src/Tests/Consumers.antt =====
-- The consumers on short sequences of events.
use wapgo.Base.{◌<◌, ◌≡◌, ◌++◌, refl, true, false, All, List, [], ◌∷◌, arith}
use wapgo.Messaging.Backoff.{second}
use wapgo.Messaging.Kafka.{Event, fetch_failed, fetched, Consumer, begin, start, step}
use wapgo.Messaging.Kafka.Laws.{IsServed, failed_is_skipped}

abbrev consumer : Consumer
consumer = record { bo = second; handled = []; failed = []; committed = 4; stopped = false }

running : (start (fetched 4 false true ∷ fetch_failed false false ∷ []) consumer).stopped ≡ false
unfolding start
running = refl

abbrev before : List Event
before = fetched 4 false true ∷ fetch_failed false false ∷ []

abbrev stopped : Consumer
stopped = start (before ++ fetched 5 true true ∷ []) consumer

-- After the restart the message at 6 is fetched.
abbrev later : List Event
later = fetched 6 true true ∷ []

later-IsServed : IsServed stopped.committed later
unfolding start
later-IsServed = (omega arith, tt)

failed_is_skipped_example :
    ((step (fetched 4 false true) consumer).committed ≡ consumer.committed)
    × All (λ x. 4 < x) (start later (begin stopped.committed)).handled
failed_is_skipped_example =
    failed_is_skipped 4 5 true (fetch_failed false false ∷ []) later consumer refl running
      (omega arith, (omega arith, tt)) later-IsServed
