-- ===== src/Metrics/Format.antt =====
-- src/metrics.rs: a percentile as text. How a double is printed with two places is a parameter.
use ws_fabric.Prelude.{ℕ, ◌++◌, ltb, if◌then◌else◌, Text, text_of, list_eq, ◌=?◌}
use ws_fabric.Float.{F64}
use ws_fabric.Text.Decimal.{print}
use ws_fabric.Metrics.{LatencyPercentiles}

abbrev pub chosen : LatencyPercentiles → Text → ℕ
chosen l percentile =
    if percentile =? text_of "p50"
    then l.p50
    else if percentile =? text_of "p95"
    then l.p95
    else if percentile =? text_of "p99"
    then l.p99
    else if percentile =? text_of "p999"
    then l.p999
    else l.p50

abbrev pub shown : (f : F64) → (f.Float → Text) → ℕ → Text
shown f two_places micros =
    if ltb micros 1000
    then print micros ++ text_of "µs"
    else if ltb micros 1000000
    then two_places (f.div (f.of_ℕ micros) (f.of_ℕ 1000)) ++ text_of "ms"
    else two_places (f.div (f.of_ℕ micros) (f.of_ℕ 1000000)) ++ text_of "s"

unfoldable pub format : (f : F64) → (f.Float → Text) → LatencyPercentiles → Text → Text
format f two_places l percentile = shown f two_places (chosen l percentile)
