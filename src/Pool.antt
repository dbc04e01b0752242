-- ===== src/Pool.antt =====
-- The values of the thread pool and its manager (include/simple_snmpd/thread_pool.hpp). The bodies of
-- the pool are not in the repository.
pub mod Memory
use simple_snmpd.Base.{ℕ, Bool, false, Option, [], Bytes}

-- Counts are of `uint64_t`, and durations are numbers of milliseconds.
pub record ThreadPoolStatistics : Type 0 where
  pub total_tasks_processed : ℕ
  pub total_tasks_enqueued : ℕ
  pub max_queue_size : ℕ
  pub current_queue_size : ℕ
  pub max_active_threads : ℕ
  pub current_active_threads : ℕ
  pub total_processing_time : ℕ
  pub average_processing_time : ℕ

abbrev pub no_thread_pool_statistics : ThreadPoolStatistics
no_thread_pool_statistics = record {
  total_tasks_processed = 0;
  total_tasks_enqueued = 0;
  max_queue_size = 0;
  current_queue_size = 0;
  max_active_threads = 0;
  current_active_threads = 0;
  total_processing_time = 0;
  average_processing_time = 0;
}

-- A request and a response of `SNMPRequestHandler`. Times are numbers; the clock starts at its epoch.
pub record HandlerRequest : Type 0 where
  pub octets : Bytes
  pub client_ip : Bytes
  pub client_port : ℕ  -- uint16_t
  pub timestamp : ℕ
  pub request_id : ℕ  -- uint64_t

abbrev pub new_handler_request : HandlerRequest
new_handler_request = record {
  octets = [];
  client_ip = [];
  client_port = 0;
  timestamp = 0;
  request_id = 0;
}

pub record HandlerResponse : Type 0 where
  pub octets : Bytes
  pub client_ip : Bytes
  pub client_port : ℕ  -- uint16_t
  pub timestamp : ℕ
  pub request_id : ℕ  -- uint64_t
  pub success : Bool
  pub error_message : Bytes

abbrev pub new_handler_response : HandlerResponse
new_handler_response = record {
  octets = [];
  client_ip = [];
  client_port = 0;
  timestamp = 0;
  request_id = 0;
  success = false;
  error_message = [];
}

pub record RequestHandlerStatistics : Type 0 where
  pub total_requests : ℕ
  pub successful_requests : ℕ
  pub failed_requests : ℕ
  pub v1_requests : ℕ
  pub v2c_requests : ℕ
  pub v3_requests : ℕ
  pub total_processing_time : ℕ
  pub average_processing_time : ℕ
  pub max_processing_time : ℕ
  pub min_processing_time : ℕ

abbrev pub no_request_handler_statistics : RequestHandlerStatistics
no_request_handler_statistics = record {
  total_requests = 0;
  successful_requests = 0;
  failed_requests = 0;
  v1_requests = 0;
  v2c_requests = 0;
  v3_requests = 0;
  total_processing_time = 0;
  average_processing_time = 0;
  max_processing_time = 0;
  min_processing_time = 0;
}

-- The members of `SNMPThreadPoolManager` but for its mutex, over what its two pointers point to.
pub record ThreadPoolManager (Pool Handler : Type 0) : Type 0 where
  pub thread_pool : Option Pool
  pub request_handler : Option Handler
  pub max_queue_size : ℕ
  pub request_timeout : ℕ
  pub statistics : RequestHandlerStatistics
  pub request_counter : ℕ  -- uint64_t

module _ {Pool Handler : Type 0} where
  abbrev pub set_max_queue_size :
      ℕ → ThreadPoolManager Pool Handler → ThreadPoolManager Pool Handler
  set_max_queue_size max_size m = record m { max_queue_size = max_size }

  abbrev pub set_request_timeout :
      ℕ → ThreadPoolManager Pool Handler → ThreadPoolManager Pool Handler
  set_request_timeout timeout m = record m { request_timeout = timeout }
