-- ===== src/Configurator/Entry.antt =====
-- proxybatcher/configurator.go, the page of the routers: a list of routers that is entered and saved.
use mathlib.Core.List.{append_assoc, append-nil}
use dhcp_batcher.Common.{ℕ, Bytes, Bool, List, [], ◌∷◌, ◌++◌, ◌≡◌, refl, sym, ap, ◌∙◌, All}
use dhcp_batcher.Options.{BatchRouterAuth}
use dhcp_batcher.Configurator.{Session, save_and_quit, zero_router}
use dhcp_batcher.GoSlice.Laws.{contents-append}
use dhcp_batcher.Configurator.Pages.{
  type_router_ip, type_router_username, type_router_password, add_router, save_routers, router_page,
  UiEvent, on_routers, callback, session,
}
use dhcp_batcher.Configurator.Routers.{routers, IsComplete, HasRouters, session-HasRouters_from}

-- The callbacks of a router that is typed in and added.
abbrev pub enter : BatchRouterAuth → List UiEvent
enter r =
    on_routers (type_router_ip r.router_ip)
    ∷ on_routers (type_router_username r.username)
    ∷ on_routers (type_router_password r.password)
    ∷ on_routers add_router
    ∷ []

abbrev pub enter_all : List BatchRouterAuth → List UiEvent
enter_all [] = []
enter_all (r ∷ rs) = enter r ++ enter_all rs

module _ (is_ip : Bytes → Bool) (spare : ℕ → ℕ) where
  session-append :
      (first second : List UiEvent) (s : Session)
      → session is_ip spare (first ++ second) s
        ≡ session is_ip spare second (session is_ip spare first s)
  unfolding session
  session-append [] second s = refl
  session-append (e ∷ first) second s = session-append first second (callback is_ip spare e s)

  routers-enter :
      (r : BatchRouterAuth) (s : Session)
      → HasRouters is_ip s
      → IsComplete is_ip r
      → routers (session is_ip spare (enter r) s) ≡ routers s ++ r ∷ []
  unfolding session callback router_page
  routers-enter r s h complete =
      simp (router_page, complete)
        (contents-append spare zero_router r s.routers s.router_store h.fits)

  routers-enter_all :
      (rs : List BatchRouterAuth) (s : Session)
      → HasRouters is_ip s
      → All (IsComplete is_ip) rs
      → routers (session is_ip spare (enter_all rs) s) ≡ routers s ++ rs
  unfolding session
  routers-enter_all [] s h complete = sym (append-nil (routers s))
  routers-enter_all (r ∷ rs) s h (here, later) =
      let t = session is_ip spare (enter r) s in
      ap routers (session-append (enter r) (enter_all rs) s)
      ∙ routers-enter_all rs t (session-HasRouters_from is_ip spare (enter r) s h) later
      ∙ ap (λ l. l ++ rs) (routers-enter r s h here)
      ∙ append_assoc (routers s) (r ∷ []) rs

  -- Complete routers that are typed in and added one after another, from any state whose list is of
  -- complete routers, and then saved, stand in the saved configuration behind the routers of that
  -- list, in their order.
  pub save_routers-enter_all :
      (rs : List BatchRouterAuth) (s : Session)
      → HasRouters is_ip s
      → All (IsComplete is_ip) rs
      → (save_and_quit (
          callback is_ip spare
            (on_routers save_routers)
            (session is_ip spare (enter_all rs) s))).batch.routers
        ≡ routers s ++ rs
  unfolding save_and_quit callback router_page
  save_routers-enter_all rs s h complete = routers-enter_all rs s h complete
