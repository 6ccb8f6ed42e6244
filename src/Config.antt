-- ===== src/Config.antt =====
-- src/vm/mcconfig.h and src/vm/mcconfig.c: the limits that the parts of the program are set up with.
use mclua.Prelude.{ℕ, ◌+◌, ◌*◌, Bool, ◌||◌, ltb, leb, ◌==◌, not}

pub record VmConfig : Type 0 where
  pub max_mem : ℕ
  pub max_file_chunk_size : ℕ
  pub max_lex_mem : ℕ
  pub max_tokens : ℕ
  pub max_idlen : ℕ
  pub max_numlen : ℕ
  pub max_termlen : ℕ
  pub min_str_len : ℕ
  pub max_str_len : ℕ
  pub min_func_len : ℕ
  pub max_func_len : ℕ
  pub max_varname_entries : ℕ
  pub max_varname_pool_size : ℕ
  pub max_nest_depth : ℕ
  pub max_ext_visitors : ℕ
  pub max_locals : ℕ
  pub max_breaks : ℕ

-- sizeof(Token)
abbrev pub token_size : ℕ
token_size = 16

-- `mcvm_set_default_config`
abbrev pub mcvm_set_default_config : VmConfig
mcvm_set_default_config = record {
  max_mem = 256 * 1024 * 1024;
  max_file_chunk_size = 1024;
  max_lex_mem = 16384 * token_size + 128 + 1024;
  max_tokens = 16384;
  max_idlen = 128;
  max_numlen = 32;
  max_termlen = 4;
  min_str_len = 64;
  max_str_len = 16384;
  min_func_len = 32;
  max_func_len = 64;
  max_varname_entries = 1024;
  max_varname_pool_size = 1024 * 128;
  max_nest_depth = 256;
  max_ext_visitors = 8;
  max_locals = 256;
  max_breaks = 64;
}

-- `mcvm_validate_config`; `true` is 0.
unfoldable pub mcvm_validate_config : VmConfig → Bool
mcvm_validate_config cfg = not (
    leb cfg.max_lex_mem cfg.max_idlen
    || (cfg.max_idlen == 0
        || (cfg.max_str_len == 0
            || (cfg.max_varname_entries == 0
                || (cfg.max_varname_pool_size == 0
                    || (cfg.max_locals == 0
                        || (cfg.max_breaks == 0 || ltb cfg.max_str_len cfg.max_idlen)))))))
