-- ===== src/Metrics/Connections.antt =====
-- How often an application was counted as connected and as disconnected.
use mongoproxy.Prelude.{ℕ, ◌+◌, ◌≡◌, List, [], ◌∷◌, ◌++◌, arith, if◌then◌else◌}
use mongoproxy.Prelude.Text.{Text, text_eq}
use mongoproxy.Metrics.{Metric, app_connection_count_total, app_disconnection_count_total}

-- How often the application was counted as connected, and as disconnected.
unfoldable pub connection : Text → Metric → ℕ
connection app (app_connection_count_total label) = if text_eq label app then 1 else 0
connection app _ = 0

unfoldable pub disconnection : Text → Metric → ℕ
disconnection app (app_disconnection_count_total label) = if text_eq label app then 1 else 0
disconnection app _ = 0

unfoldable pub connections : Text → List Metric → ℕ
unfolding connection
connections app [] = 0
connections app (m ∷ metrics) = connection app m + connections app metrics

unfoldable pub disconnections : Text → List Metric → ℕ
unfolding disconnection
disconnections app [] = 0
disconnections app (m ∷ metrics) = disconnection app m + disconnections app metrics

pub connections-append :
    (app : Text) (xs ys : List Metric)
    → connections app (xs ++ ys) ≡ connections app xs + connections app ys
unfolding connections
connections-append app [] ys = omega arith
connections-append app (m ∷ xs) ys = omega (arith, connections-append app xs ys)

pub disconnections-append :
    (app : Text) (xs ys : List Metric)
    → disconnections app (xs ++ ys) ≡ disconnections app xs + disconnections app ys
unfolding disconnections
disconnections-append app [] ys = omega arith
disconnections-append app (m ∷ xs) ys = omega (arith, disconnections-append app xs ys)

-- A metric that counts neither.
abbrev pub IsOther : Metric → Type 0
IsOther m = (app : Text) → (connection app m ≡ 0) × (disconnection app m ≡ 0)
