-- ===== src/Options/Check/Passes.antt =====
-- Which configurations checkConfig of proxybatcher/options.go lets through.
use dhcp_batcher.Common.{
  ℕ, ◌≤◌, Bytes, bytes, str_eq, str_eq_iff, is_empty, Bool, true, false, none, List, [], ◌∷◌, ◌≡◌,
  ◌≢◌, ◌↔◌, refl, ap, arith, length, All, ℤ, pos, eqb_ℤ, if◌then◌else◌,
}
use mathlib.Core.Bool.{false≢true}
use dhcp_batcher.Options.{SonarConfig, BatchConfig, ProxyConfig, ProgramConfig}
use dhcp_batcher.Strings.{atoi}
use dhcp_batcher.Options.Check.{
  System, Verdict, pass, fail, ◌>>◌, lower, check_tls, check_batch, check_servers, check_proxy,
  check_version, check_v1, check_v2, clean_instance, check_instance, check_modes, cleaned,
  check_config,
}

-- The test of the Sonar version refuses no version.
pub check_version-pass : (sonar : SonarConfig) → check_version sonar ≡ pass
unfolding check_version
check_version-pass sonar = ground arith

module _ (sys : System) where
  pub record BatchOk (batch : BatchConfig) : Type 0 where
    pub key : batch.is_tls_enabled ≡ true → sys.exists batch.tls_key ≡ true
    pub cert : batch.is_tls_enabled ≡ true → sys.exists batch.tls_cert ≡ true
    pub port : batch.is_tls_enabled ≡ true → atoi batch.tls_server_port ≢ none
    pub username : 5 ≤ length batch.endpoint_username
    pub password : 16 ≤ length batch.endpoint_password
    pub ip : sys.is_ip batch.server_ip ≡ true

  pub record ProxyOk (proxy : ProxyConfig) : Type 0 where
    pub ip : sys.is_ip proxy.proxy_server_ip ≡ true
    pub some_server : proxy.upstream_server_ips ≢ []
    pub servers : All (λ s. sys.is_ip s ≡ true) proxy.upstream_server_ips

  -- The length of a text between two bounds.
  abbrev pub Sized : ℕ → ℕ → Bytes → Type 0
  Sized lo hi s = (lo ≤ length s) × (length s ≤ hi)

  pub record ConfigOk (options : ProgramConfig) : Type 0 where
    pub batch : lower sys options.operation_mode ≡ bytes "batch" → BatchOk options.batch
    pub proxy : lower sys options.operation_mode ≡ bytes "proxy" → ProxyOk options.proxy
    pub v1 :
        options.sonar.version ≡ pos 1
        → Sized 1 256 options.sonar.api_username × Sized 1 1925 options.sonar.api_key
    pub v2 : options.sonar.version ≡ pos 2 → length options.sonar.bearer_token ≤ 1925
    pub host : Sized 1 256 (clean_instance sys options.sonar.instance_name)

  check_batch_iff : (batch : BatchConfig) → (check_batch sys batch ≡ pass) ↔ BatchOk batch
  unfolding check_batch check_tls
  check_batch_iff batch = (
    λ e. record {
      key = ground arith;
      cert = ground arith;
      port = ground arith;
      username = ground arith;
      password = ground arith;
      ip = ground arith;
    },
    λ h. ground (arith, h.key, h.cert, h.port),
  )

  check_servers_iff :
      (servers : List Bytes)
      → (check_servers sys servers ≡ pass) ↔ All (λ s. sys.is_ip s ≡ true) servers
  unfolding check_servers
  check_servers_iff [] = (λ _. tt, λ _. refl)
  check_servers_iff (s ∷ servers) = ground (arith, check_servers_iff servers)

  check_proxy_iff : (proxy : ProxyConfig) → (check_proxy sys proxy ≡ pass) ↔ ProxyOk proxy
  unfolding check_proxy
  check_proxy_iff proxy = (
    λ e. record {
      ip = ground arith;
      some_server = ground arith;
      servers = (check_servers_iff proxy.upstream_server_ips).0 (ground arith);
    },
    λ h.
        ground
          (arith, h.ip, h.some_server, (check_servers_iff proxy.upstream_server_ips).1 h.servers),
  )

  is_empty_iff : (s : Bytes) → (is_empty s ≡ false) ↔ (1 ≤ length s)
  unfolding is_empty
  is_empty_iff [] = ground arith
  is_empty_iff (c ∷ s) = (λ _. omega arith, λ _. refl)

  check_v1_iff :
      (sonar : SonarConfig)
      → (check_v1 sonar ≡ pass) ↔ (Sized 1 256 sonar.api_username × Sized 1 1925 sonar.api_key)
  unfolding check_v1
  check_v1_iff sonar = ground (arith, is_empty_iff sonar.api_username, is_empty_iff sonar.api_key)

  check_v2_iff :
      (sonar : SonarConfig) → (check_v2 sonar ≡ pass) ↔ (length sonar.bearer_token ≤ 1925)
  unfolding check_v2
  check_v2_iff sonar = ground arith

  check_instance_iff : (name : Bytes) → (check_instance name ≡ pass) ↔ Sized 1 256 name
  unfolding check_instance
  check_instance_iff name = ground (arith, is_empty_iff name)

  -- The part of the requirements that stands before the instance name.
  abbrev ModesOk : ProgramConfig → Type 0
  ModesOk options =
      (lower sys options.operation_mode ≡ bytes "batch" → BatchOk options.batch)
      × ((lower sys options.operation_mode ≡ bytes "proxy" → ProxyOk options.proxy)
          × ((options.sonar.version ≡ pos 1
                → Sized 1 256 options.sonar.api_username × Sized 1 1925 options.sonar.api_key)
              × (options.sonar.version ≡ pos 2 → length options.sonar.bearer_token ≤ 1925)))

  eqb_iff : (a b : ℤ) → (eqb_ℤ a b ≡ true) ↔ (a ≡ b)
  eqb_iff a b = ground arith

  -- A check under a test passes if the check passes wherever the test holds.
  if_pass :
      (test : Bool) (check : Verdict) {A : Type 0} {P : Type 0}
      → (test ≡ true) ↔ A
      → (check ≡ pass) ↔ P
      → ((if test then check else pass) ≡ pass) ↔ (A → P)
  if_pass true check t c = (λ e a. c.0 e, λ f. c.1 (f (t.0 refl)))
  if_pass false check t c = (λ e a. absurd (false≢true (t.1 a)), λ f. refl)

  seq_pass : (a b : Verdict) → ((a >> b) ≡ pass) ↔ ((a ≡ pass) × (b ≡ pass))
  seq_pass a b = ground arith

  check_modes_iff : (options : ProgramConfig) → (check_modes sys options ≡ pass) ↔ ModesOk options
  unfolding check_modes
  check_modes_iff options =
      let mode = lower sys options.operation_mode in
      let sonar = options.sonar in
      let batch =
        if_pass (str_eq mode (bytes "batch")) _ (str_eq_iff _ _) (check_batch_iff options.batch) in
      let proxy =
        if_pass (str_eq mode (bytes "proxy")) _ (str_eq_iff _ _) (check_proxy_iff options.proxy) in
      let v1 =
        if_pass (eqb_ℤ sonar.version (pos 1)) _ (eqb_iff sonar.version (pos 1))
          (check_v1_iff sonar) in
      let v2 =
        if_pass (eqb_ℤ sonar.version (pos 2)) _ (eqb_iff sonar.version (pos 2))
          (check_v2_iff sonar) in
      (
        λ e.
            (let (e', ok2) = (seq_pass _ _).0 e in
              let (e'', ok1) = (seq_pass _ _).0 e' in
              let (e3, _) = (seq_pass _ _).0 e'' in
              let (ok_batch, ok_proxy) = (seq_pass _ _).0 e3 in
              (batch.0 ok_batch, (proxy.0 ok_proxy, (v1.0 ok1, v2.0 ok2)))),
        λ (b, (p, (u, t))). (seq_pass _ _).1 (
          (seq_pass _ _).1 (
            (seq_pass _ _).1 ((seq_pass _ _).1 (batch.1 b, proxy.1 p), check_version-pass sonar),
            v1.1 u,
          ),
          v2.1 t,
        ),
      )

  -- checkConfig lets a configuration through, with its instance name cleaned, exactly when it meets
  -- the requirements of its mode, of its Sonar version and of the cleaned name.
  pub check_config_iff :
      (options : ProgramConfig)
      → (check_config sys options ≡ (pass, cleaned sys options)) ↔ ConfigOk options
  unfolding check_config
  check_config_iff options = by_modes (check_modes sys options) refl
    where
      by_modes :
          (v : Verdict)
          → check_modes sys options ≡ v
          → (check_config sys options ≡ (pass, cleaned sys options)) ↔ ConfigOk options
      by_modes pass e =
          let (batch, (proxy, (v1, v2))) = (check_modes_iff options).0 e in
          let host = check_instance_iff (clean_instance sys options.sonar.instance_name) in
          (
            λ h. record {
              batch = batch;
              proxy = proxy;
              v1 = v1;
              v2 = v2;
              host = host.0 (ap (λ r. r.0) (rw (e, check_config) at h));
            },
            λ h.
                rw (e, check_config)
                  (ap (λ (v : Verdict). (v, cleaned sys options)) (host.1 h.host)),
          )
      by_modes (fail f) e = (
        λ h. absurd (ground (arith, ap (λ r. r.0) (rw (e, check_config) at h))),
        λ h.
            absurd
              (ground (arith, e, (check_modes_iff options).1 (h.batch, (h.proxy, (h.v1, h.v2))))),
      )
