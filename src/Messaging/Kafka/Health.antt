-- ===== src/Messaging/Kafka/Health.antt =====
-- The probe `HealthCheck` of pkg/messaging/kafka/consumer.go, over the dialling of an address
-- (`none` if it succeeds).
use wapgo.Base.{Option, none, some, [], ◌++◌, ◌==◌, if◌then◌else◌}
use wapgo.Base.Text.{Text, codes, text_eq}
use wapgo.Base.Strings.{cut_at, trim, is_space}

unfoldable pub first_broker : Text → Text
unfolding cut_at trim
first_broker brokers = trim is_space (cut_at (λ c. c == b',') brokers).0

unfoldable pub health_check : (Text → Option Text) → Text → Text
unfolding first_broker text_eq
health_check dial brokers =
    if text_eq (trim is_space brokers) []
    then codes "not_configured"
    else (elim (dial (first_broker brokers)) [ none ↦ codes "ok" | some e ↦ codes "down: " ++ e ])
