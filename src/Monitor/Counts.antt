-- ===== src/Monitor/Counts.antt =====
-- The counts of src/logger/monitor.go after a run of requests.
use bincrypt.Prelude.{
  ℕ, ◌+◌, ◌≡◌, ◌&&◌, Bool, true, false, List, [], ◌∷◌, Bytes, arith, leb, bytes_eq, bytes_eq_iff,
  if◌then◌else◌, find_by, find_by-remove_by,
}
use bincrypt.Monitor.{
  Count, count_endpoint, look_up, increment, Collector, Logged, endpoint_of, logging,
}

look_up-increment :
    (k endpoint : Bytes) (counts : List Count)
    → look_up k (increment endpoint counts)
      ≡ (if bytes_eq endpoint k then 1 else 0) + look_up k counts
unfolding look_up increment find_by
look_up-increment k endpoint counts =
    ground (arith, find_by-remove_by count_endpoint k endpoint counts, bytes_eq_iff endpoint k)

-- The requests of a run, each with the status of its answer.
unfoldable pub run_logging : List (Logged × ℕ) → Collector → Collector
run_logging [] c = c
run_logging ((r, status) ∷ rs) c = run_logging rs (logging r status c).1

abbrev one_if : Bool → ℕ
one_if true = 1
one_if false = 0

-- How many of them went to an endpoint, and how many of these were answered with 400 or more.
abbrev pub requests_to : Bytes → List (Logged × ℕ) → ℕ
requests_to k [] = 0
requests_to k ((r, status) ∷ rs) = one_if (bytes_eq (endpoint_of r) k) + requests_to k rs

abbrev pub failures_of : Bytes → List (Logged × ℕ) → ℕ
failures_of k [] = 0
failures_of k ((r, status) ∷ rs) =
    one_if (bytes_eq (endpoint_of r) k && leb 400 status) + failures_of k rs

-- After any run of requests through Logging, the request count of each endpoint (the method and the path,
-- a paste's identifier replaced) has grown by the number of requests to it, and its error count by the number of
-- those that were answered with a status of 400 or more.
pub run_logging-counts :
    (k : Bytes) (rs : List (Logged × ℕ)) (c : Collector)
    → (look_up k (run_logging rs c).request_counts ≡ look_up k c.request_counts + requests_to k rs)
      × (look_up k (run_logging rs c).error_counts ≡ look_up k c.error_counts + failures_of k rs)
unfolding run_logging logging
run_logging-counts k [] c = (omega arith, omega arith)
run_logging-counts k ((r, status) ∷ rs) c =
    let (requests, errors) = run_logging-counts k rs (logging r status c).1 in
    (
      ground (arith, requests, look_up-increment k (endpoint_of r) c.request_counts),
      ground (arith, errors, look_up-increment k (endpoint_of r) c.error_counts),
    )
