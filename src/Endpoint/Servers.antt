-- ===== src/Endpoint/Servers.antt =====
-- proxybatcher/options.go, configBatchModeTLS and configBatchModeServers: the HTTP servers of the batch
-- mode. The header and
-- the status of the redirect are constants, and the error is always nil; neither stands here. Times are in
-- seconds.
use dhcp_batcher.Common.{
  ℕ, Bytes, bytes, Bool, true, false, Option, none, some, List, [], ◌∷◌, All, ◌++◌, ◌≡◌, inl, inr,
  Bool-cases, ◌<◌, length, take, refl, some-injective, sym, ap, ◌∙◌, arith, if◌then◌else◌,
}
use mathlib.Core.List.{append_assoc}
use dhcp_batcher.Options.{BatchConfig}

-- What the program uses of package crypto/tls, which is not part of the repository: its constants,
-- and the documented names of its cipher suites, as CipherSuiteName returns them.
pub record TlsPackage : Type 0 where
  pub curve_p256 : ℕ
  pub x25519 : ℕ
  pub version_tls12 : ℕ
  pub ecdhe_ecdsa_aes_256_gcm : ℕ
  pub ecdhe_rsa_aes_256_gcm : ℕ
  pub ecdhe_ecdsa_chacha20 : ℕ
  pub ecdhe_rsa_chacha20 : ℕ
  pub ecdhe_ecdsa_aes_128_gcm : ℕ
  pub ecdhe_rsa_aes_128_gcm : ℕ
  pub suite_name : ℕ → Bytes
  pub ecdsa_256 :
      suite_name ecdhe_ecdsa_aes_256_gcm ≡ bytes "TLS_ECDHE_ECDSA_WITH_AES_256_GCM_SHA384"
  pub rsa_256 : suite_name ecdhe_rsa_aes_256_gcm ≡ bytes "TLS_ECDHE_RSA_WITH_AES_256_GCM_SHA384"
  pub ecdsa_chacha :
      suite_name ecdhe_ecdsa_chacha20 ≡ bytes "TLS_ECDHE_ECDSA_WITH_CHACHA20_POLY1305_SHA256"
  pub rsa_chacha :
      suite_name ecdhe_rsa_chacha20 ≡ bytes "TLS_ECDHE_RSA_WITH_CHACHA20_POLY1305_SHA256"
  pub ecdsa_128 :
      suite_name ecdhe_ecdsa_aes_128_gcm ≡ bytes "TLS_ECDHE_ECDSA_WITH_AES_128_GCM_SHA256"
  pub rsa_128 : suite_name ecdhe_rsa_aes_128_gcm ≡ bytes "TLS_ECDHE_RSA_WITH_AES_128_GCM_SHA256"

-- tls.Config, as far as the program sets it.
pub record TlsConfig : Type 0 where
  pub prefer_server_cipher_suites : Bool
  pub curve_preferences : List ℕ
  pub min_version : ℕ
  pub cipher_suites : List ℕ

-- An empty tls.Config.
abbrev pub zero_tls : TlsConfig
zero_tls = record {
  prefer_server_cipher_suites = false;
  curve_preferences = [];
  min_version = 0;
  cipher_suites = [];
}

unfoldable pub config_batch_mode_tls : TlsPackage → TlsConfig
config_batch_mode_tls tls = record {
  prefer_server_cipher_suites = true;
  curve_preferences = tls.curve_p256 ∷ tls.x25519 ∷ [];
  min_version = tls.version_tls12;
  cipher_suites =
      tls.ecdhe_ecdsa_aes_256_gcm ∷ tls.ecdhe_rsa_aes_256_gcm ∷ tls.ecdhe_ecdsa_chacha20
      ∷ tls.ecdhe_rsa_chacha20 ∷ tls.ecdhe_ecdsa_aes_128_gcm ∷ tls.ecdhe_rsa_aes_128_gcm ∷ [];
}

-- A suite whose key exchange is ephemeral, which gives it forward secrecy.
abbrev pub IsEphemeral : TlsPackage → ℕ → Type 0
IsEphemeral tls c = take 10 (tls.suite_name c) ≡ bytes "TLS_ECDHE_"

-- A configuration that takes TLS 1.2 or later, and in TLS 1.2 only ephemeral suites. It names at least
-- one, since an empty list stands for Go's default suites, some of which are not.
abbrev pub IsStrong : TlsPackage → TlsConfig → Type 0
IsStrong tls config =
    (config.min_version ≡ tls.version_tls12)
    × (0 < length config.cipher_suites)
    × All (IsEphemeral tls) config.cipher_suites

pub config_batch_mode_tls-IsStrong : (tls : TlsPackage) → IsStrong tls (config_batch_mode_tls tls)
unfolding config_batch_mode_tls bytes
config_batch_mode_tls-IsStrong tls = (
  refl,
  omega arith,
  (
    ap (take 10) tls.ecdsa_256,
    (
      ap (take 10) tls.rsa_256,
      (
        ap (take 10) tls.ecdsa_chacha,
        (ap (take 10) tls.rsa_chacha, (ap (take 10) tls.ecdsa_128, (ap (take 10) tls.rsa_128, tt))),
      ),
    ),
  ),
)

-- http.Server, as far as the program sets it; `location` is where the handler of the redirect sends
-- a request for a URL, and an empty record stands for http.Server{}.
pub record HttpServer : Type 0 where
  pub addr : Bytes
  pub tls_config : Option TlsConfig
  pub location : Option (Bytes → Bytes)
  pub read_timeout : ℕ
  pub read_header_timeout : ℕ
  pub write_timeout : ℕ
  pub idle_timeout : ℕ

abbrev pub no_server : HttpServer
no_server = record {
  addr = [];
  tls_config = none;
  location = none;
  read_timeout = 0;
  read_header_timeout = 0;
  write_timeout = 0;
  idle_timeout = 0;
}

-- The redirect server and the endpoint.
unfoldable pub config_batch_mode_servers : TlsConfig → BatchConfig → HttpServer × HttpServer
config_batch_mode_servers tls_config batch =
    if batch.is_tls_enabled
    then (
      record {
        addr = batch.server_ip ++ (bytes ":" ++ batch.http_server_port);
        tls_config = none;
        location = some (λ url.
            bytes "https://" ++ (batch.server_ip ++ (bytes ":" ++ (batch.tls_server_port ++ url))));
        read_timeout = 5;
        read_header_timeout = 5;
        write_timeout = 5;
        idle_timeout = 120;
      },
      record {
        addr = batch.server_ip ++ (bytes ":" ++ batch.tls_server_port);
        tls_config = some tls_config;
        location = none;
        read_timeout = 5;
        read_header_timeout = 5;
        write_timeout = 10;
        idle_timeout = 120;
      },
    )
    else (
      no_server,
      record {
        addr = batch.server_ip ++ (bytes ":" ++ batch.http_server_port);
        tls_config = none;
        location = none;
        read_timeout = 5;
        read_header_timeout = 5;
        write_timeout = 5;
        idle_timeout = 120;
      },
    )

-- Where there is a redirect server, it sends a request for any URL to https:// followed by the
-- address of the endpoint server and the URL.
pub config_batch_mode_servers_redirect :
    (tls_config : TlsConfig) (batch : BatchConfig) (url : Bytes) (redirect : Bytes → Bytes)
    → (config_batch_mode_servers tls_config batch).0.location ≡ some redirect
    → redirect url
      ≡ bytes "https://" ++ ((config_batch_mode_servers tls_config batch).1.addr ++ url)
unfolding config_batch_mode_servers
config_batch_mode_servers_redirect tls_config batch url redirect e =
    elim (Bool-cases batch.is_tls_enabled) [
      | inr plain ↦ absurd (ground arith)
      | inl tls ↦
          let host = batch.server_ip in
          let port = batch.tls_server_port in
          let run : some (λ target. bytes "https://" ++ (host ++ (bytes ":" ++ (port ++ target))))
              ≡ some redirect =
            ground arith in
          let regroup : (host ++ (bytes ":" ++ port)) ++ url
              ≡ host ++ (bytes ":" ++ (port ++ url)) =
            append_assoc host (bytes ":" ++ port) url
            ∙ ap (λ t. host ++ t) (append_assoc (bytes ":") port url) in
          rw (tls, regroup) (sym (ap (λ f. f url) (some-injective run)))
    ]
