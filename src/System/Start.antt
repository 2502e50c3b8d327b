-- ===== src/System/Start.antt =====
-- proxybatcher/batch_mode.go, startBatchModeServer up to the wait for a signal, and how
-- RunBatchScheduler of proxybatcher/batch_scheduler.go begins. TLS itself and the sockets are not modelled.
use dhcp_batcher.Common.{
  ℕ, ◌-◌, ◌*◌, ◌<◌, ◌≤◌, ℤ, pos, negsuc, pos_part, neg_part, ◌+◌, int64, Bytes, bytes, true, false,
  some, List, [], ◌∷◌, ◌++◌, ◌≡◌, ◌↔◌, refl, arith, if◌then◌else◌,
}
use dhcp_batcher.Options.{BatchConfig, ProgramConfig}
use dhcp_batcher.Options.Load.{loaded}
use dhcp_batcher.Options.Check.{System, cleaned}
use dhcp_batcher.Options.Check.Passes.{ConfigOk}
use dhcp_batcher.Endpoint.Servers.{
  HttpServer, TlsPackage, TlsConfig, zero_tls, config_batch_mode_tls, IsStrong,
  config_batch_mode_servers,
}
use dhcp_batcher.Batch.{init_table, minutes, second}
use dhcp_batcher.Batch.Loop.{run_batch_scheduler_starts}
use dhcp_batcher.Batch.Dispatch.{max_minutes, minutes-pos}
use dhcp_batcher.Logging.{Logger, stderr}
use dhcp_batcher.Main.{main, batch_server, main-batch_server_iff}

-- A server that a goroutine runs. The endpoint's handler is BatchModeEndpointRouter.
pub data Listener : Type 0 where
  redirector : HttpServer → Listener
  endpoint_http : HttpServer → Listener
  endpoint_tls : HttpServer → Bytes → Bytes → Listener

-- The logger is set to the standard error first.
unfoldable pub start_batch_mode_server : TlsPackage → BatchConfig → Logger → Logger × List Listener
start_batch_mode_server tls batch l =
    let tls_config = if batch.is_tls_enabled then config_batch_mode_tls tls else zero_tls in
    let (redirect_server, endpoint_server) = config_batch_mode_servers tls_config batch in
    (
      record l { output = stderr },
      if batch.is_tls_enabled
          then redirector redirect_server
            ∷ endpoint_tls endpoint_server batch.tls_cert batch.tls_key
            ∷ []
          else endpoint_http endpoint_server ∷ [],
    )

-- A listener of a TLS configuration: the endpoint behind TLS with the configured certificate, or a
-- server that sends a request for any URL to the endpoint's address.
abbrev pub IsSecure : TlsPackage → BatchConfig → Listener → Type 0
IsSecure tls batch (redirector s) =
    (redirect : Bytes → Bytes) × (s.location ≡ some redirect)
    × (s.addr ≡ batch.server_ip ++ (bytes ":" ++ batch.http_server_port))
    × ((url : Bytes)
        → redirect url
          ≡ bytes "https://" ++ (batch.server_ip ++ (bytes ":" ++ (batch.tls_server_port ++ url))))
IsSecure tls batch (endpoint_http s) = ⊥
IsSecure tls batch (endpoint_tls s cert key) =
    (s.addr ≡ batch.server_ip ++ (bytes ":" ++ batch.tls_server_port))
    × ((config : TlsConfig) × (s.tls_config ≡ some config) × IsStrong tls config)
    × (cert ≡ batch.tls_cert)
    × (key ≡ batch.tls_key)

minutes-negsuc :
    (n : ℕ) → n < max_minutes → minutes (negsuc n) ≡ negsuc ((n + 1) * (60 * second) - 1)
unfolding minutes int64
minutes-negsuc n h = ground arith

-- For a cycle time of at most 153722867 minutes either way the scheduler's ticker starts exactly
-- when the time is not negative.
pub run_batch_scheduler_starts_iff :
    (options : ProgramConfig)
    → pos_part options.batch.scheduler_cycle_time ≤ max_minutes
    → neg_part options.batch.scheduler_cycle_time ≤ max_minutes
    → (run_batch_scheduler_starts (init_table options) ≡ true)
      ↔ (neg_part options.batch.scheduler_cycle_time ≡ 0)
unfolding run_batch_scheduler_starts init_table
run_batch_scheduler_starts_iff options h h' = by_sign options.batch.scheduler_cycle_time refl
  where
    by_sign :
        (c : ℤ)
        → options.batch.scheduler_cycle_time ≡ c
        → (run_batch_scheduler_starts (init_table options) ≡ true)
          ↔ (neg_part options.batch.scheduler_cycle_time ≡ 0)
    by_sign (pos n) e = ground (arith, e, minutes-pos n)
    by_sign (negsuc n) e = ground (arith, e, minutes-negsuc n)

module _ (sys : System) where
  -- Options that meet the requirements of checkConfig, in batch mode and with a negative cycle time
  -- of at most 153722867 minutes, make main run the endpoint, and the scheduler's ticker panics.
  pub main-negative_cycle :
      (options : ProgramConfig) (n : ℕ)
      → ConfigOk sys options
      → options.operation_mode ≡ bytes "batch"
      → options.batch.scheduler_cycle_time ≡ negsuc n
      → n < max_minutes
      → (main sys (loaded options)
          ≡ batch_server (cleaned sys options) (init_table (cleaned sys options)))
        × (run_batch_scheduler_starts (init_table (cleaned sys options)) ≡ false)
  unfolding run_batch_scheduler_starts init_table
  main-negative_cycle options n ok mode e h =
      ((main-batch_server_iff sys options).1 (ok, mode), ground (arith, e, minutes-negsuc n h))
