-- ===== src/Configurator/Frames.antt =====
-- What the callbacks of a page of proxybatcher/configurator.go leave alone.
use dhcp_batcher.Common.{List, [], ◌∷◌, ℕ, Bytes, Bool, ◌≡◌, refl, arith, ◌⊎◌, inl, inr}
use dhcp_batcher.Configurator.{Session}
use dhcp_batcher.Configurator.Pages.{
  sonar_page, batch_page, RouterEvent, router_page, ProxyEvent, proxy_page, logging_page, UiEvent,
  save_mode, on_sonar, on_batch, on_routers, on_proxy, on_logging, callback, session,
}

-- What two states have in common, page by page.
pub record SameProxy (s t : Session) : Type 0 where
  pub proxy : t.proxy ≡ s.proxy
  pub removes : t.removes_servers ≡ s.removes_servers
  pub store : t.server_store ≡ s.server_store
  pub saved : t.config.proxy ≡ s.config.proxy

module _ (is_ip : Bytes → Bool) (spare : ℕ → ℕ) where
  -- The other pages leave the page of the proxy alone.
  pub callback-SameProxy :
      (e : UiEvent) (s : Session)
      → ((p : ProxyEvent) × (e ≡ on_proxy p)) ⊎ SameProxy s (callback is_ip spare e s)
  unfolding callback sonar_page batch_page router_page logging_page
  callback-SameProxy (on_proxy p) s = inl (p, refl)
  callback-SameProxy (save_mode option) s =
      inr (record { proxy = refl; removes = refl; store = refl; saved = refl })
  callback-SameProxy (on_sonar e) s = inr (record {
    proxy = ground arith;
    removes = ground arith;
    store = ground arith;
    saved = ground arith;
  })
  callback-SameProxy (on_batch e) s = inr (record {
    proxy = ground arith;
    removes = ground arith;
    store = ground arith;
    saved = ground arith;
  })
  callback-SameProxy (on_routers e) s = inr (record {
    proxy = ground arith;
    removes = ground arith;
    store = ground arith;
    saved = ground arith;
  })
  callback-SameProxy (on_logging e) s = inr (record {
    proxy = ground arith;
    removes = ground arith;
    store = ground arith;
    saved = ground arith;
  })

-- The other pages leave the page of the routers alone.
pub record SameRouters (s t : Session) : Type 0 where
  pub routers : t.routers ≡ s.routers
  pub router : t.router ≡ s.router
  pub removes : t.removes_routers ≡ s.removes_routers
  pub store : t.router_store ≡ s.router_store

module _ (is_ip : Bytes → Bool) (spare : ℕ → ℕ) where
  pub callback-SameRouters :
      (e : UiEvent) (s : Session)
      → ((p : RouterEvent) × (e ≡ on_routers p)) ⊎ SameRouters s (callback is_ip spare e s)
  unfolding callback sonar_page batch_page proxy_page logging_page
  callback-SameRouters (on_routers p) s = inl (p, refl)
  callback-SameRouters (save_mode option) s =
      inr (record { routers = refl; router = refl; removes = refl; store = refl })
  callback-SameRouters (on_sonar e) s = inr (record {
    routers = ground arith;
    router = ground arith;
    removes = ground arith;
    store = ground arith;
  })
  callback-SameRouters (on_batch e) s = inr (record {
    routers = ground arith;
    router = ground arith;
    removes = ground arith;
    store = ground arith;
  })
  callback-SameRouters (on_proxy e) s = inr (record {
    routers = ground arith;
    router = ground arith;
    removes = ground arith;
    store = ground arith;
  })
  callback-SameRouters (on_logging e) s = inr (record {
    routers = ground arith;
    router = ground arith;
    removes = ground arith;
    store = ground arith;
  })

  -- What every callback keeps, a session keeps.
  pub session_keeps {ℓ} :
      (P : Session → Type ℓ)
      → ((e : UiEvent) (s : Session) → P s → P (callback is_ip spare e s))
      → (events : List UiEvent) (s : Session) → P s
      → P (session is_ip spare events s)
  unfolding session
  session_keeps P keeps [] s h = h
  session_keeps P keeps (e ∷ events) s h =
      session_keeps P keeps events (callback is_ip spare e s) (keeps e s h)
