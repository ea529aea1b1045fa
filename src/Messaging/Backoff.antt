-- ===== src/Messaging/Backoff.antt =====
-- The wait between attempts to reach a broker: in `Start` of pkg/messaging/kafka/consumer.go and in
-- `sleepBackoff` of pkg/messaging/rabbitmq/consumer.go.
pub mod Laws
use wapgo.Base.{ℕ, suc, zero, ◌*◌, ◌^◌, Bool, true, false, ltb, if◌then◌else◌}

abbrev pub second : ℕ
second = 10 ^ 9

abbrev pub max_wait : ℕ
max_wait = 30 * second

-- The wait after a wait.
unfoldable pub doubled : ℕ → ℕ
doubled bo = if ltb bo max_wait then (if ltb max_wait (bo * 2) then max_wait else bo * 2) else bo

-- `sleepBackoff`: whether the wait was not cut short by the context, and the next wait.
unfoldable pub sleep_backoff : Bool → ℕ → Bool × ℕ
unfolding doubled
sleep_backoff cancelled bo = if cancelled then (false, bo) else (true, doubled bo)

-- The wait after so many failures in a row, from one second on.
unfoldable pub wait_after : ℕ → ℕ
unfolding doubled
wait_after zero = second
wait_after (suc n) = doubled (wait_after n)
