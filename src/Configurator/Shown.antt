-- ===== src/Configurator/Shown.antt =====
-- proxybatcher/configurator.go: a page that opens over a loaded configuration shows what it holds.
use dhcp_batcher.Common.{
  ℕ, suc, ◌+◌, ℤ, pos, Bytes, bytes, str_eq, str_eq_iff, Bool, true, false, not, Option, none, some,
  List, [], ◌∷◌, ◌≡◌, ◌⊎◌, inl, inr, refl, ap, ◌∙◌, arith, get_elem?, All, if◌then◌else◌,
  Bool-cases,
}
use dhcp_batcher.GoSlice.{last_index}
use dhcp_batcher.GoSlice.Last.{last_index_lem}
use dhcp_batcher.Options.{SonarConfig, BatchConfig, ProxyConfig, LoggingConfig}
use dhcp_batcher.Strings.{to_lower}
use dhcp_batcher.Configurator.{Session}
use dhcp_batcher.Configurator.Pages.{is_found, choose_tls, choose_version, batch_page, sonar_page}
use dhcp_batcher.Configurator.Forms.{
  sonar_form, batch_form, chosen_index, proxy_form, logging_modes, logging_formats, logging_form,
  server_rows,
}

-- Choosing the option that the drop-down of a loaded configuration shows inverts whether TLS is
-- enabled.
pub choose_tls-shown :
    (is_ip : Bytes → Bool) (itoa : ℤ → Bytes) (s : Session) (batch : BatchConfig)
    → (batch_page is_ip (choose_tls (batch_form itoa true batch).enable_tls) s).batch.is_tls_enabled
      ≡ not batch.is_tls_enabled
unfolding batch_page batch_form
choose_tls-shown is_ip itoa s batch = ground arith

-- Choosing the option that the drop-down of the version shows keeps a version that is 1 or 2.
pub choose_version-shown :
    (s : Session) (sonar : SonarConfig)
    → (sonar.version ≡ pos 1) ⊎ (sonar.version ≡ pos 2)
    → (sonar_page (choose_version (sonar_form true sonar).version_index) s).sonar.version
      ≡ sonar.version
unfolding sonar_page sonar_form
choose_version-shown s sonar h = ground arith

-- The page of the logging options shows the loaded mode and format, in lower case, where they are
-- among its options, and debug and json where they are not.
pub logging_form-shown :
    (unicode : Bytes → Bytes) (logging : LoggingConfig)
    → let form = logging_form unicode true logging in
      let mode = to_lower unicode logging.mode in
      let format = to_lower unicode logging.format in
      ((get_elem? logging_modes form.mode_index ≡ some mode)
        ⊎ (All (λ m. str_eq mode m ≡ false) logging_modes × (form.mode_index ≡ 0)))
      × ((get_elem? logging_formats form.format_index ≡ some format)
          ⊎ (All (λ m. str_eq format m ≡ false) logging_formats × (form.format_index ≡ 1)))
unfolding logging_form
logging_form-shown unicode logging =
    let mode = to_lower unicode logging.mode in
    let format = to_lower unicode logging.format in
    (
      ground (
        arith,
        str_eq_iff mode (bytes "debug"),
        str_eq_iff mode (bytes "info"),
        str_eq_iff mode (bytes "warn"),
      ),
      ground (arith, str_eq_iff format (bytes "text"), str_eq_iff format (bytes "json")),
    )

last_index-at {ℓ} :
    {A : Type ℓ} (test : A → Bool) (k : ℕ) (found : Option ℕ) (xs : List A) (r : ℕ)
    → last_index test k found xs ≡ some r
    → (found ≡ some r)
      ⊎ ((i : ℕ) × (x : A) × (r ≡ k + i) × (get_elem? xs i ≡ some x) × (test x ≡ true))
unfolding last_index
last_index-at test k found [] r e = inl e
last_index-at test k found (x ∷ xs) r e =
    elim (last_index-at test (suc k) (if test x then some k else found) xs r e) [
      | inl here ↦ elim (Bool-cases (test x)) [
        | inl t ↦ inr (0, x, ground (arith, here, t), refl, t)
        | inr f ↦ inl (ground (arith, here, f))
      ]
      | inr (i, y, at, got, t) ↦ inr (suc i, y, omega (arith, at), got, t)
    ]

is_found-none :
    (text : Bytes) (xs : List Bytes)
    → All (λ v. str_eq v text ≡ false) xs
    → is_found text xs ≡ false
unfolding is_found
is_found-none text [] h = refl
is_found-none text (x ∷ xs) (here, later) = ground (arith, is_found-none text xs later)

chosen_index_lem :
    (text : Bytes) (choices : List Bytes)
    → is_found text choices ≡ true
    → get_elem? choices (chosen_index text choices) ≡ some text
chosen_index_lem text choices h =
    let test : Bytes → Bool = λ v. str_eq v text in
    elim (last_index_lem test choices) [
      | inl (none_found, rest) ↦ absurd (ground (arith, is_found-none text choices rest, h))
      | inr (i, e, below, d) ↦ elim (last_index-at test 0 none choices i e) [
        | inl impossible ↦ absurd (ground (arith, impossible))
        | inr (j, x, at, got, t) ↦
            let same : i ≡ j = omega (arith, at) in
            rw e (ap (get_elem? choices) same ∙ got ∙ ap some ((str_eq_iff x text).0 t))
      ]
    ]

server_rows_all :
    (is_ip : Bytes → Bool) (servers : List Bytes)
    → All (λ v. is_ip v ≡ true) servers
    → server_rows is_ip servers ≡ servers
unfolding server_rows
server_rows_all is_ip [] h = refl
server_rows_all is_ip (v ∷ servers) (here, later) =
    ground (arith, here, server_rows_all is_ip servers later)

-- If the loaded interfaces and the loaded address are among the choices and all loaded servers are
-- addresses, the page of the proxy options shows them all.
pub proxy_form-shown :
    (is_ip : Bytes → Bool) (interfaces ip_addresses : List Bytes) (proxy : ProxyConfig)
    → is_found proxy.upstream_interface interfaces ≡ true
    → is_found proxy.downstream_interface interfaces ≡ true
    → is_found proxy.proxy_server_ip ip_addresses ≡ true
    → All (λ v. is_ip v ≡ true) proxy.upstream_server_ips
    → let form = proxy_form is_ip true interfaces ip_addresses proxy in
      (get_elem? interfaces form.upstream_index ≡ some proxy.upstream_interface)
      × (get_elem? interfaces form.downstream_index ≡ some proxy.downstream_interface)
      × (get_elem? ip_addresses form.ip_index ≡ some proxy.proxy_server_ip)
      × (form.rows ≡ proxy.upstream_server_ips)
unfolding proxy_form
proxy_form-shown is_ip interfaces ip_addresses proxy up down ip all = (
  chosen_index_lem proxy.upstream_interface interfaces up,
  chosen_index_lem proxy.downstream_interface interfaces down,
  chosen_index_lem proxy.proxy_server_ip ip_addresses ip,
  server_rows_all is_ip proxy.upstream_server_ips all,
)
