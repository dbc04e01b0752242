-- ===== src/Pool/Memory.antt =====
-- The statistics of the memory pools (include/simple_snmpd/memory_pool.hpp). The bodies of the pools
-- are not in the repository. All counts are of `size_t`.
use simple_snmpd.Base.{ℕ}

-- `MemoryPool<BlockSize, PoolSize>::Statistics`
pub record BlockStatistics : Type 0 where
  pub total_blocks : ℕ
  pub allocated_blocks : ℕ
  pub free_blocks : ℕ
  pub allocation_count : ℕ
  pub deallocation_count : ℕ
  pub peak_allocated_blocks : ℕ

-- Of a pool of `pool_size` blocks, all free.
abbrev pub new_block_statistics : ℕ → BlockStatistics
new_block_statistics pool_size = record {
  total_blocks = pool_size;
  allocated_blocks = 0;
  free_blocks = pool_size;
  allocation_count = 0;
  deallocation_count = 0;
  peak_allocated_blocks = 0;
}

-- `VariableMemoryPool::Statistics`
pub record VariableStatistics : Type 0 where
  pub total_allocated : ℕ
  pub current_usage : ℕ
  pub peak_usage : ℕ
  pub allocation_count : ℕ
  pub deallocation_count : ℕ
  pub pool_size : ℕ

abbrev pub no_variable_statistics : VariableStatistics
no_variable_statistics = record {
  total_allocated = 0;
  current_usage = 0;
  peak_usage = 0;
  allocation_count = 0;
  deallocation_count = 0;
  pool_size = 0;
}

-- `SNMPMemoryPool::Statistics`
pub record SnmpPoolStatistics : Type 0 where
  pub packet_buffer_stats : VariableStatistics
  pub oid_buffer_stats : VariableStatistics
  pub variable_binding_stats : BlockStatistics

-- The pool of bindings has 1000 blocks.
abbrev pub new_snmp_pool_statistics : SnmpPoolStatistics
new_snmp_pool_statistics = record {
  packet_buffer_stats = no_variable_statistics;
  oid_buffer_stats = no_variable_statistics;
  variable_binding_stats = new_block_statistics 1000;
}
