-- ===== src/Configurator/Tables/Kept.antt =====
-- proxybatcher/configurator.go: the callbacks that leave the list of the DHCP servers alone, and lists
-- without duplicates.
use mathlib.Core.Path.{subst}
use dhcp_batcher.Common.{
  ℕ, zero, suc, Bytes, str_eq_refl, Bool, true, some, List, [], ◌∷◌, ◌≡◌, inl, inr, refl, ap, ◌∙◌,
  arith, length, length-append, get_elem?, some-injective,
}
use dhcp_batcher.GoSlice.Last.{Removes, last_match}
use dhcp_batcher.Configurator.{Session}
use dhcp_batcher.Configurator.Pages.{
  RouterEvent, ProxyEvent, choose_upstream, choose_downstream, choose_proxy_ip, add_server,
  remove_server, select_server, save_proxy, proxy_page, is_found, servers, UiEvent, on_routers,
  on_proxy, callback,
}
use dhcp_batcher.Configurator.Frames.{callback-SameProxy}
use dhcp_batcher.Configurator.Servers.{AllDistinct}
use dhcp_batcher.Configurator.Tables.Screen.{IsForm}

is_found-get :
    (x : Bytes) (vs : List Bytes) (j : ℕ) → get_elem? vs j ≡ some x → is_found x vs ≡ true
unfolding is_found
is_found-get x [] j e = absurd (ground arith)
is_found-get x (v ∷ vs) zero e = rw (some-injective e, is_found, str_eq_refl x) refl
is_found-get x (v ∷ vs) (suc j) e = ground (arith, is_found-get x vs j e)

-- In a list without duplicates a text stands at one index.
pub AllDistinct-get :
    (vs : List Bytes) (i j : ℕ) (x : Bytes)
    → AllDistinct vs
    → get_elem? vs i ≡ some x
    → get_elem? vs j ≡ some x
    → j ≡ i
AllDistinct-get [] i j x d ei ej = absurd (ground arith)
AllDistinct-get (v ∷ vs) zero zero x d ei ej = refl
AllDistinct-get (v ∷ vs) zero (suc j) x (fresh, d) ei ej =
    absurd (ground (arith, is_found-get x vs j ej, some-injective ei, fresh))
AllDistinct-get (v ∷ vs) (suc i) zero x (fresh, d) ei ej =
    absurd (ground (arith, is_found-get x vs i ei, some-injective ej, fresh))
AllDistinct-get (v ∷ vs) (suc i) (suc j) x (fresh, d) ei ej =
    ap suc (AllDistinct-get vs i j x d ei ej)

module _ (is_ip : Bytes → Bool) (spare : ℕ → ℕ) where
  -- The other callbacks leave the list of servers alone.
  page_servers :
      (p : ProxyEvent) (s : Session)
      → IsForm (on_proxy p)
      → servers (proxy_page is_ip spare p s) ≡ servers s
  unfolding proxy_page
  page_servers (choose_upstream o) s f = refl
  page_servers (choose_downstream o) s f = refl
  page_servers (choose_proxy_ip o) s f = refl
  page_servers (add_server text) s f = absurd f
  page_servers (remove_server rows) s f = absurd f
  page_servers (select_server ip) s f = absurd f
  page_servers save_proxy s f = refl

  pub form_servers :
      (e : UiEvent) (s : Session) → IsForm e → servers (callback is_ip spare e s) ≡ servers s
  unfolding callback
  form_servers e s f = elim (callback-SameProxy is_ip spare e s) [
    | inl (p, same) ↦ rw same (page_servers p s (subst IsForm same f))
    | inr same ↦ rw (same.store, same.proxy) refl
  ]

  pub router_servers :
      (e : RouterEvent) (s : Session) → servers (callback is_ip spare (on_routers e) s) ≡ servers s
  router_servers e s = elim (callback-SameProxy is_ip spare (on_routers e) s) [
    | inl (p, same) ↦ absurd (cc)
    | inr same ↦ rw (same.store, same.proxy) refl
  ]

-- Nothing can be removed from an empty list.
pub Removes-nil {ℓ} :
    {A : Type ℓ} (test : A → Bool) {xs ys : List A} → Removes test xs ys → xs ≡ [] → ys ≡ []
Removes-nil test (inl (last_match before x after hit rest)) e =
    absurd (omega (arith, ap length e, length-append before (x ∷ after)))
Removes-nil test (inr (rest, same)) e = same ∙ e
