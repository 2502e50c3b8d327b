-- ===== src/Configurator/Unserved.antt =====
-- proxybatcher/configurator.go: a session in which no DHCP server is added, and what checkConfig of
-- proxybatcher/options.go says to what it saves.
use dhcp_batcher.Common.{
  str_eq, ℕ, Bytes, bytes, Bool, List, [], ◌∷◌, ◌≡◌, ◌≢◌, inl, inr, refl, ap, ◌∙◌, arith, All,
}
use dhcp_batcher.GoSlice.{nil, contents, remove_last, last_index}
use dhcp_batcher.Options.{ProgramConfig}
use dhcp_batcher.Options.Check.{System, lower}
use dhcp_batcher.Options.Check.Passes.{ConfigOk}
use dhcp_batcher.Configurator.{Session, open_session, save_and_quit}
use dhcp_batcher.Configurator.Pages.{
  ProxyEvent, choose_upstream, choose_downstream, choose_proxy_ip, add_server, remove_server,
  select_server, save_proxy, proxy_page, UiEvent, on_proxy, callback, session,
}
use dhcp_batcher.Configurator.Frames.{callback-SameProxy}

-- A session in which no DHCP server is added.
abbrev pub AddsNoServer : List UiEvent → Type 0
AddsNoServer events = All (λ e. (text : Bytes) → e ≢ on_proxy (add_server text)) events

-- No slice of the page of the proxy has an element.
record NoServer (s : Session) : Type 0 where
  pub working : s.proxy.upstream_server_ips ≡ nil
  pub saved : s.config.proxy.upstream_server_ips ≡ nil

remove_last-nil :
    (test : Bytes → Bool) (store : List (List Bytes)) → (remove_last test [] nil store).0 ≡ nil
unfolding remove_last last_index
remove_last-nil test store = refl

module _ (is_ip : Bytes → Bool) (spare : ℕ → ℕ) where
  proxy_page-NoServer :
      (p : ProxyEvent) (s : Session)
      → ((text : Bytes) → on_proxy p ≢ on_proxy (add_server text))
      → NoServer s
      → NoServer (proxy_page is_ip spare p s)
  unfolding proxy_page
  proxy_page-NoServer (choose_upstream option) s other h = record {
    working = h.working;
    saved = h.saved;
  }
  proxy_page-NoServer (choose_downstream option) s other h = record {
    working = h.working;
    saved = h.saved;
  }
  proxy_page-NoServer (choose_proxy_ip option) s other h = record {
    working = h.working;
    saved = h.saved;
  }
  proxy_page-NoServer (add_server text) s other h = absurd (other text refl)
  proxy_page-NoServer (remove_server rows) s other h = record {
    working = ground arith;
    saved = ground arith;
  }
  proxy_page-NoServer (select_server ip) s other h = record {
    working = ground (arith, h.working, remove_last-nil (λ v. str_eq v ip) s.server_store);
    saved = ground (arith, h.saved);
  }
  proxy_page-NoServer save_proxy s other h = record { working = h.working; saved = h.working }

  callback-NoServer :
      (e : UiEvent) (s : Session)
      → ((text : Bytes) → e ≢ on_proxy (add_server text))
      → NoServer s
      → NoServer (callback is_ip spare e s)
  unfolding callback
  callback-NoServer e s other h = elim (callback-SameProxy is_ip spare e s) [
    | inl (p, is_p) ↦ rw is_p (proxy_page-NoServer p s (λ text same. other text (is_p ∙ same)) h)
    | inr same ↦ record {
      working = ap (λ p. p.upstream_server_ips) same.proxy ∙ h.working;
      saved = ap (λ p. p.upstream_server_ips) same.saved ∙ h.saved;
    }
  ]

  session-NoServer :
      (events : List UiEvent) (s : Session)
      → AddsNoServer events
      → NoServer s
      → NoServer (session is_ip spare events s)
  unfolding session
  session-NoServer [] s others h = h
  session-NoServer (e ∷ events) s (other, others) h =
      session-NoServer events (callback is_ip spare e s) others (callback-NoServer e s other h)

  opened-NoServer :
      (load_yaml : Bool) (options : ProgramConfig) → NoServer (open_session spare load_yaml options)
  unfolding open_session
  opened-NoServer load_yaml options = record { working = refl; saved = refl }

module _ (sys : System) (spare : ℕ → ℕ) where
  -- Options that agree in the proxy mode with those that a session saves in which no DHCP server is
  -- added do not meet the requirements of proxy mode.
  pub no_server-not_ok :
      (load_yaml : Bool) (options : ProgramConfig) (events : List UiEvent) (checked : ProgramConfig)
      → AddsNoServer events
      → checked.proxy
        ≡ (save_and_quit
            (session sys.is_ip spare events (open_session spare load_yaml options))).proxy
      → lower sys checked.operation_mode ≡ bytes "proxy"
      → ¬ ConfigOk sys checked
  unfolding save_and_quit
  no_server-not_ok load_yaml options events checked others quit mode accepted =
      let s = session sys.is_ip spare events (open_session spare load_yaml options) in
      let ok = accepted.proxy mode in
      let h =
        session-NoServer sys.is_ip spare events (open_session spare load_yaml options) others
          (opened-NoServer sys.is_ip spare load_yaml options) in
      ok.some_server (ap (λ p. p.upstream_server_ips) quit ∙ ap (contents s.server_store) h.saved)
