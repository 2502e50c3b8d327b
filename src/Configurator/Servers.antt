-- ===== src/Configurator/Servers.antt =====
-- proxybatcher/configurator.go, the page of the proxy options: the list of the DHCP servers.
use mathlib.Core.Path.{subst}
use dhcp_batcher.Common.{
  ℕ, Bytes, str_eq, str_eq_iff, ltb, Bool, true, false, not, ◌&&◌, List, [], ◌∷◌, ◌++◌, ◌≡◌, inl,
  inr, refl, sym, arith, All, All-append, Bool-cases, if◌then◌else◌,
}
use dhcp_batcher.GoSlice.{Slice, contents}
use dhcp_batcher.GoSlice.Laws.{Fits, contents-append}
use dhcp_batcher.GoSlice.Grows.{Grows-append}
use dhcp_batcher.GoSlice.Last.{
  Removes, last_match, Removes-All, contents-remove_last, Grows-remove_last,
}
use dhcp_batcher.Options.{ProgramConfig}
use dhcp_batcher.Configurator.{Session, open_session}
use dhcp_batcher.Configurator.Pages.{
  ProxyEvent, choose_upstream, choose_downstream, choose_proxy_ip, add_server, remove_server,
  select_server, save_proxy, proxy_page, is_found, servers, UiEvent, callback, session,
}
use dhcp_batcher.Configurator.Frames.{session_keeps, callback-SameProxy}

-- No text stands twice.
abbrev pub AllDistinct : List Bytes → Type 0
AllDistinct [] = Unit
AllDistinct (v ∷ vs) = (is_found v vs ≡ false) × AllDistinct vs

is_found-append :
    (text x : Bytes) (vs : List Bytes)
    → is_found text (vs ++ x ∷ []) ≡ (if is_found text vs then true else str_eq x text)
unfolding is_found
is_found-append text x [] = ground arith
is_found-append text x (v ∷ vs) = ground (arith, is_found-append text x vs)

AllDistinct-append :
    (x : Bytes) (vs : List Bytes)
    → AllDistinct vs
    → is_found x vs ≡ false
    → AllDistinct (vs ++ x ∷ [])
unfolding is_found
AllDistinct-append x [] h e = (refl, tt)
AllDistinct-append x (v ∷ vs) (here, later) e = (
  ground (arith, is_found-append v x vs, here, e, str_eq_iff v x, str_eq_iff x v),
  AllDistinct-append x vs later (ground arith),
)

is_found-without :
    (text : Bytes) (before : List Bytes) (x : Bytes) (after : List Bytes)
    → is_found text (before ++ x ∷ after) ≡ false
    → is_found text (before ++ after) ≡ false
unfolding is_found
is_found-without text [] x after e = ground arith
is_found-without text (v ∷ before) x after e = ground (arith, is_found-without text before x after)

AllDistinct-without :
    (before : List Bytes) (x : Bytes) (after : List Bytes)
    → AllDistinct (before ++ x ∷ after)
    → AllDistinct (before ++ after)
AllDistinct-without [] x after (here, later) = later
AllDistinct-without (v ∷ before) x after (here, later) =
    (is_found-without v before x after here, AllDistinct-without before x after later)

Removes-AllDistinct :
    (test : Bytes → Bool) {xs ys : List Bytes}
    → Removes test xs ys
    → AllDistinct xs
    → AllDistinct ys
Removes-AllDistinct test (inl (last_match before x after e rest)) h =
    AllDistinct-without before x after h
Removes-AllDistinct test (inr (rest, same)) h = subst AllDistinct (sym same) h

module _ (is_ip : Bytes → Bool) where
  -- The list that the page works on: its texts are addresses, and none stands twice.
  pub record ServerList (store : List (List Bytes)) (list : Slice) : Type 0 where
    pub fits : Fits store list
    pub parsed : All (λ v. is_ip v ≡ true) (contents store list)
    pub once : AllDistinct (contents store list)

  abbrev pub HasServers : Session → Type 0
  HasServers s = ServerList s.server_store s.proxy.upstream_server_ips

  add_server-HasServers :
      (spare : ℕ → ℕ) (text : Bytes) (s : Session)
      → HasServers s
      → HasServers (proxy_page is_ip spare (add_server text) s)
  unfolding proxy_page
  add_server-HasServers spare text s h =
      elim (Bool-cases (is_ip text && not (is_found text (servers s)))) [
        | inl e ↦
            let list = s.proxy.upstream_server_ips in
            let same = contents-append spare [] text list s.server_store h.fits in
            rw (proxy_page, e)
              (record {
                fits = (Grows-append spare [] text list s.server_store h.fits).1;
                parsed = subst (All (λ v. is_ip v ≡ true)) (sym same) (
                    All-append (λ v. is_ip v ≡ true) (servers s) (text ∷ []) h.parsed
                      (ground arith));
                once =
                    subst AllDistinct (sym same)
                      (AllDistinct-append text (servers s) h.once (ground arith));
              })
        | inr e ↦ rw (proxy_page, e) h
      ]

  select_server-HasServers :
      (spare : ℕ → ℕ) (ip : Bytes) (s : Session)
      → HasServers s
      → HasServers (proxy_page is_ip spare (select_server ip) s)
  unfolding proxy_page
  select_server-HasServers spare ip s h = elim (Bool-cases s.removes_servers) [
    | inl e ↦
        let list = s.proxy.upstream_server_ips in
        let test : Bytes → Bool = λ v. str_eq v ip in
        let r = contents-remove_last test [] list s.server_store h.fits in
        rw (proxy_page, e)
          (record {
            fits = (Grows-remove_last test [] list s.server_store h.fits).1;
            parsed = Removes-All test (λ v. is_ip v ≡ true) r h.parsed;
            once = Removes-AllDistinct test r h.once;
          })
    | inr e ↦ rw (proxy_page, e) h
  ]

  proxy_page-HasServers :
      (spare : ℕ → ℕ) (e : ProxyEvent) (s : Session)
      → HasServers s
      → HasServers (proxy_page is_ip spare e s)
  unfolding proxy_page
  proxy_page-HasServers spare (choose_upstream option) s h = h
  proxy_page-HasServers spare (choose_downstream option) s h = h
  proxy_page-HasServers spare (choose_proxy_ip option) s h = h
  proxy_page-HasServers spare (add_server text) s h = add_server-HasServers spare text s h
  proxy_page-HasServers spare (remove_server rows) s h = elim (Bool-cases (ltb 1 rows)) [
    | inl e ↦ rw (proxy_page, e) h
    | inr e ↦ rw (proxy_page, e) h
  ]
  proxy_page-HasServers spare (select_server ip) s h = select_server-HasServers spare ip s h
  proxy_page-HasServers spare save_proxy s h = h

  pub callback-HasServers :
      (spare : ℕ → ℕ) (e : UiEvent) (s : Session)
      → HasServers s
      → HasServers (callback is_ip spare e s)
  unfolding callback
  callback-HasServers spare e s h = elim (callback-SameProxy is_ip spare e s) [
    | inl (p, e) ↦ rw e (proxy_page-HasServers spare p s h)
    | inr same ↦ rw (same.store, same.proxy) h
  ]

  session-HasServers_from :
      (spare : ℕ → ℕ) (events : List UiEvent) (s : Session)
      → HasServers s
      → HasServers (session is_ip spare events s)
  session-HasServers_from spare = session_keeps is_ip spare HasServers (callback-HasServers spare)

  -- After any callbacks of the configurator, over loaded options or none, the list of DHCP servers
  -- that its page works on has only texts that parse as addresses, none of them twice, and its
  -- array has room for it.
  pub session-HasServers :
      (spare : ℕ → ℕ) (load_yaml : Bool) (options : ProgramConfig) (events : List UiEvent)
      → HasServers (session is_ip spare events (open_session spare load_yaml options))
  unfolding open_session
  session-HasServers spare load_yaml options events =
      session-HasServers_from spare events (open_session spare load_yaml options)
        (record { fits = tt; parsed = tt; once = tt })
