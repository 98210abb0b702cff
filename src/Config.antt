-- ===== src/Config.antt =====
-- internal/config/limits.go: the resource policy of the manager and its routers.
pub mod Environment
pub mod Valid
use gopls_mcp_manager.Prelude.{
  ℕ, ◌*◌, ◌^◌, String, Bool, false, List, [], ℤ, pos, is_positive, if◌then◌else◌,
}

-- Durations are in nanoseconds. A nil `DirectoryFilters` is the empty list.
pub record Limits : Type 0 where
  pub per_lane : ℤ
  pub session : ℤ
  pub lanes : ℤ
  pub cache_entries : ℤ
  pub execution : ℤ
  pub cache_ttl : ℤ
  pub message_bytes : ℤ
  pub http_bytes : ℤ
  pub sse_bytes : ℤ
  pub shared_servers : ℤ
  pub log_bytes : ℤ
  pub open_files : ℤ
  pub metrics : Bool
  pub directory_filters : List String

abbrev pub second : ℕ
second = 1000000000

-- `Default`
abbrev pub default : Limits
default = record {
  per_lane = pos 128;
  session = pos 1024;
  lanes = pos 64;
  cache_entries = pos 4096;
  execution = pos 0;
  cache_ttl = pos (300 * second);
  message_bytes = pos (4 * 2 ^ 20);
  http_bytes = pos (64 * 2 ^ 20);
  sse_bytes = pos (64 * 2 ^ 20);
  shared_servers = pos 64;
  log_bytes = pos (64 * 2 ^ 20);
  open_files = pos 30000;
  metrics = false;
  directory_filters = [];
}

abbrev pub or_fallback : ℤ → ℤ → ℤ
or_fallback target fallback = if is_positive target then target else fallback

-- `Limits.WithDefaults`
unfoldable pub with_defaults : Limits → Limits
with_defaults l = record l {
  per_lane = or_fallback l.per_lane default.per_lane;
  session = or_fallback l.session default.session;
  lanes = or_fallback l.lanes default.lanes;
  cache_entries = or_fallback l.cache_entries default.cache_entries;
  message_bytes = or_fallback l.message_bytes default.message_bytes;
  http_bytes = or_fallback l.http_bytes default.http_bytes;
  sse_bytes = or_fallback l.sse_bytes default.sse_bytes;
  shared_servers = or_fallback l.shared_servers default.shared_servers;
  log_bytes = or_fallback l.log_bytes default.log_bytes;
  open_files = or_fallback l.open_files default.open_files;
  cache_ttl = or_fallback l.cache_ttl default.cache_ttl;
}
