-- ===== src/Metrics.antt =====
-- The Prometheus counters and histograms of src/mongodb.rs and src/tracker.rs. The crate
-- prometheus is not modelled: the state records each update, in order, with its label values.
pub mod Connections
use mongoproxy.Prelude.{ℕ, List}
use mongoproxy.Prelude.Int.{ℤ}
use mongoproxy.Prelude.Text.{Text}

pub data Metric : Type 0 where
  opcode_counter unsupported_opcode_counter message_parse_errors_counter : Text → Metric
  app_connection_count_total app_disconnection_count_total : Text → Metric
  unsupported_opname_counter : Text → Metric
  client_bytes_sent_total client_bytes_recv_total : Text → ℕ → Metric
  server_response_errors_total : List Text → Metric
  server_response_latency_seconds : List Text → ℕ → Metric
  server_response_size_total client_request_size_total : List Text → ℕ → Metric
  documents_returned_total documents_changed_total : List Text → ℤ → Metric
