-- ===== src/Engine/Types.antt =====
-- The data of cudaforge/engine.py: parameters, configuration and outputs.
use cudaforge.Prelude.{ℕ, String, Bool, true, false, List, [], Option}
use cudaforge.Prelude.Int.{ℤ, pos, negsuc}

-- `temperature` and `top_p` are in thousandths. The engine stores them and does not read them.
pub record SamplingParams : Type 0 where
  pub temperature : ℕ
  pub top_p : ℕ
  pub top_k : ℤ
  pub max_tokens : ℤ
  pub priority : ℤ
  pub stop_token_ids : List ℤ
  pub ignore_eos : Bool

abbrev pub default_params : SamplingParams
default_params = record {
  temperature = 1000;
  top_p = 1000;
  top_k = negsuc 0;
  max_tokens = pos 128;
  priority = pos 0;
  stop_token_ids = [];
  ignore_eos = false;
}

pub record EngineConfig : Type 0 where
  pub num_layers : ℕ
  pub num_kv_heads : ℕ
  pub head_dim : ℕ
  pub vocab_size : ℕ
  pub eos_token_id : ℤ
  pub element_size_bytes : ℕ
  pub block_size : ℕ
  pub total_gpu_blocks : ℕ
  pub enable_prefix_caching : Bool
  pub max_blocks_per_sequence : ℕ
  pub max_num_seqs : ℕ
  pub max_num_batched_tokens : ℕ

abbrev pub default_config : EngineConfig
default_config = record {
  num_layers = 32;
  num_kv_heads = 8;
  head_dim = 128;
  vocab_size = 32000;
  eos_token_id = pos 2;
  element_size_bytes = 2;
  block_size = 16;
  total_gpu_blocks = 1024;
  enable_prefix_caching = true;
  max_blocks_per_sequence = 512;
  max_num_seqs = 256;
  max_num_batched_tokens = 8192;
}

-- The C++ `KVCacheConfig`, as the Python code fills it.
pub record KvCacheConfig : Type 0 where
  pub num_layers : ℕ
  pub num_kv_heads : ℕ
  pub head_dim : ℕ
  pub block_size : ℕ
  pub element_size_bytes : ℕ
  pub total_gpu_blocks : ℕ
  pub enable_prefix_caching : Bool
  pub max_supported_batch_size : ℕ
  pub max_blocks_per_sequence : ℕ

unfoldable pub to_native_kv_config : EngineConfig → KvCacheConfig
to_native_kv_config self = record {
  num_layers = self.num_layers;
  num_kv_heads = self.num_kv_heads;
  head_dim = self.head_dim;
  block_size = self.block_size;
  element_size_bytes = self.element_size_bytes;
  total_gpu_blocks = self.total_gpu_blocks;
  enable_prefix_caching = self.enable_prefix_caching;
  max_supported_batch_size = self.max_num_seqs;
  max_blocks_per_sequence = self.max_blocks_per_sequence;
}

-- A token that the model runner has put into its stream buffer.
pub record StreamOutput : Type 0 where
  pub request_id : ℕ
  pub token_id : ℤ
  pub is_final : Bool

pub record GenerationOutput : Type 0 where
  pub request_id : ℕ
  pub token_id : ℤ
  pub is_final : Bool
  pub error : Option String
