-- ===== src/Metrics.antt =====
-- The values of the metrics (include/simple_snmpd/prometheus_metrics.hpp). The bodies of the metrics
-- and of their registry are not in the repository. `Double` is the type of the numbers with a point.
use simple_snmpd.Base.{ℕ, Bool, List, [], Bytes}

pub data MetricType : Type 0 where
  counter gauge histogram summary : MetricType

module _ (Double : Type 0) where
  -- The labels are a list of names with their values; times are numbers.
  pub record MetricValue : Type 0 where
    pub value : Double
    pub labels : List (Bytes × Bytes)
    pub timestamp : ℕ

  -- `PrometheusMetricValue(v, l)`; the time is the epoch of the clock.
  abbrev pub labelled : Double → List (Bytes × Bytes) → MetricValue
  labelled v labels = record { value = v; labels = labels; timestamp = 0 }

  -- `PrometheusMetricValue(v)`, and `PrometheusMetricValue()` where `v` is 0.0.
  abbrev pub unlabelled : Double → MetricValue
  unlabelled v = labelled v []

  pub record HistogramBucket : Type 0 where
    pub upper_bound : Double
    pub count : ℕ  -- uint64_t

  -- `PrometheusHistogramBucket(bound, c)`
  abbrev pub bucket : Double → ℕ → HistogramBucket
  bucket bound c = record { upper_bound = bound; count = c }

  -- The members of `PrometheusMetric` but for its mutex.
  pub record Metric : Type 0 where
    pub name : Bytes
    pub help : Bytes
    pub type : MetricType
    pub label_names : List Bytes
    pub values : List (Bytes × MetricValue)
    pub histogram_buckets : List Double

-- `PrometheusHTTPServer::Statistics`
pub record HttpStatistics : Type 0 where
  pub total_requests : ℕ
  pub successful_requests : ℕ
  pub failed_requests : ℕ
  pub total_response_time : ℕ
  pub average_response_time : ℕ

abbrev pub no_http_statistics : HttpStatistics
no_http_statistics = record {
  total_requests = 0;
  successful_requests = 0;
  failed_requests = 0;
  total_response_time = 0;
  average_response_time = 0;
}

-- The members of `PrometheusHTTPServer` but for its thread and its mutex.
pub record MetricsHttpServer : Type 0 where
  pub port : ℕ  -- uint16_t
  pub metrics_path : Bytes
  pub running : Bool
  pub statistics : HttpStatistics

abbrev pub set_metrics_port : ℕ → MetricsHttpServer → MetricsHttpServer
set_metrics_port port s = record s { port = port }

abbrev pub set_metrics_path : Bytes → MetricsHttpServer → MetricsHttpServer
set_metrics_path path s = record s { metrics_path = path }
