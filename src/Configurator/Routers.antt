-- ===== src/Configurator/Routers.antt =====
-- proxybatcher/configurator.go, the page of the routers.
use mathlib.Core.Path.{subst}
use dhcp_batcher.Common.{
  length-append, length, ℕ, ◌<◌, Bytes, Bool, true, false, List, [], ◌∷◌, ◌++◌, ◌≡◌, inl, inr, refl,
  sym, arith, All, All-append, Bool-cases, length, ltb, lt→ltb, Option-cases,
}
use dhcp_batcher.GoSlice.{replicate, Slice, contents}
use dhcp_batcher.GoSlice.Laws.{take-length_append, Fits, contents-append}
use dhcp_batcher.GoSlice.Grows.{Grows-append}
use dhcp_batcher.GoSlice.Last.{Removes, Removes-All, contents-remove_last, Grows-remove_last}
use dhcp_batcher.GoSlice.Alias.{remove_last-stale}
use dhcp_batcher.Options.{ProgramConfig, BatchRouterAuth}
use dhcp_batcher.Configurator.{Session, open_session, zero_router, save_and_quit}
use dhcp_batcher.Configurator.Password.{generate_random_string}
use dhcp_batcher.Configurator.Pages.{
  RouterEvent, type_router_ip, type_router_username, type_router_password, generate_password,
  add_router, remove_router, select_router, save_routers, router_page, has_address, is_complete,
  UiEvent, on_routers, callback, session,
}
use dhcp_batcher.Configurator.Frames.{session_keeps, callback-SameRouters}

-- The routers that the page works on.
abbrev pub routers : Session → List BatchRouterAuth
routers s = contents s.router_store s.routers

module _ (is_ip : Bytes → Bool) where
  abbrev pub IsComplete : BatchRouterAuth → Type 0
  IsComplete r = is_complete is_ip r ≡ true

  -- A list of complete routers, with room for it.
  pub record RouterList (store : List (List BatchRouterAuth)) (list : Slice) : Type 0 where
    pub fits : Fits store list
    pub complete : All IsComplete (contents store list)

  abbrev pub HasRouters : Session → Type 0
  HasRouters s = RouterList s.router_store s.routers

  add_router-HasRouters :
      (spare : ℕ → ℕ) (s : Session)
      → HasRouters s
      → HasRouters (router_page is_ip spare add_router s)
  unfolding router_page
  add_router-HasRouters spare s h = elim (Bool-cases (is_complete is_ip s.router)) [
    | inl e ↦
        rw (router_page, e)
          (record {
            fits = (Grows-append spare zero_router s.router s.routers s.router_store h.fits).1;
            complete =
                subst (All IsComplete)
                  (sym (contents-append spare zero_router s.router s.routers s.router_store h.fits))
                  (All-append IsComplete (routers s) (s.router ∷ []) h.complete (e, tt));
          })
    | inr e ↦ rw (router_page, e) h
  ]

  select_router-HasRouters :
      (spare : ℕ → ℕ) (ip : Bytes) (s : Session)
      → HasRouters s
      → HasRouters (router_page is_ip spare (select_router ip) s)
  unfolding router_page
  select_router-HasRouters spare ip s h = elim (Bool-cases s.removes_routers) [
    | inl e ↦
        rw (router_page, e)
          (record {
            fits =
                (Grows-remove_last (has_address ip) zero_router s.routers s.router_store h.fits).1;
            complete =
                Removes-All (has_address ip) IsComplete
                  (contents-remove_last (has_address ip) zero_router s.routers s.router_store
                    h.fits)
                  h.complete;
          })
    | inr e ↦ rw (router_page, e) h
  ]

  router_page-HasRouters :
      (spare : ℕ → ℕ) (e : RouterEvent) (s : Session)
      → HasRouters s
      → HasRouters (router_page is_ip spare e s)
  unfolding router_page
  router_page-HasRouters spare (type_router_ip text) s h = h
  router_page-HasRouters spare (type_router_username text) s h = h
  router_page-HasRouters spare (type_router_password text) s h = h
  router_page-HasRouters spare (generate_password read) s h =
      elim (Option-cases (generate_random_string read 64)) [
        | inl e ↦ rw (router_page, e) h
        | inr (text, e) ↦ rw (router_page, e) (h)
      ]
  router_page-HasRouters spare add_router s h = add_router-HasRouters spare s h
  router_page-HasRouters spare (remove_router rows) s h = elim (Bool-cases (ltb 1 rows)) [
    | inl e ↦ rw (router_page, e) (h)
    | inr e ↦ rw (router_page, e) h
  ]
  router_page-HasRouters spare (select_router ip) s h = select_router-HasRouters spare ip s h
  router_page-HasRouters spare save_routers s h = h

  callback-HasRouters :
      (spare : ℕ → ℕ) (e : UiEvent) (s : Session)
      → HasRouters s
      → HasRouters (callback is_ip spare e s)
  unfolding callback
  callback-HasRouters spare e s h = elim (callback-SameRouters is_ip spare e s) [
    | inl (p, e) ↦ rw e (router_page-HasRouters spare p s h)
    | inr same ↦ rw (same.store, same.routers) h
  ]

  pub session-HasRouters_from :
      (spare : ℕ → ℕ) (events : List UiEvent) (s : Session)
      → HasRouters s
      → HasRouters (session is_ip spare events s)
  session-HasRouters_from spare = session_keeps is_ip spare HasRouters (callback-HasRouters spare)

  open_session-HasRouters :
      (spare : ℕ → ℕ) (load_yaml : Bool) (options : ProgramConfig)
      → All IsComplete options.batch.routers
      → HasRouters (open_session spare load_yaml options)
  unfolding open_session
  open_session-HasRouters spare true options h =
      let loaded = options.batch.routers in
      let room = replicate (spare (length loaded)) zero_router in
      record {
        fits = (omega arith, omega (arith, length-append loaded room));
        complete = subst (All IsComplete) (sym (take-length_append loaded room)) h;
      }
  open_session-HasRouters spare false options h = record { fits = tt; complete = tt }

  -- If the loaded routers are complete, then after any callbacks of the configurator so is every
  -- router of the list that its page works on: its address parses, and its user name and password
  -- are not empty.
  pub session-HasRouters :
      (spare : ℕ → ℕ) (load_yaml : Bool) (options : ProgramConfig) (events : List UiEvent)
      → All IsComplete options.batch.routers
      → HasRouters (session is_ip spare events (open_session spare load_yaml options))
  session-HasRouters spare load_yaml options events h =
      session-HasRouters_from spare events (open_session spare load_yaml options)
        (open_session-HasRouters spare load_yaml options h)

  -- Selecting a row of the table, once the button was pressed, leaves out the last router with the
  -- address of the row, or nothing if there is none.
  pub select_router-Removes :
      (spare : ℕ → ℕ) (ip : Bytes) (s : Session)
      → HasRouters s
      → s.removes_routers ≡ true
      → Removes
          (has_address ip)
          (routers s)
          (routers (router_page is_ip spare (select_router ip) s))
  unfolding router_page
  select_router-Removes spare ip s h e =
      simp (router_page, e)
        (contents-remove_last (has_address ip) zero_router s.routers s.router_store h.fits)

  -- A complete router is put behind the others and the form is emptied; any other changes nothing.
  pub add_router_iff :
      (spare : ℕ → ℕ) (s : Session)
      → HasRouters s
      → let t = router_page is_ip spare add_router s in
        (IsComplete s.router → (routers t ≡ routers s ++ s.router ∷ []) × (t.router ≡ zero_router))
        × (¬ IsComplete s.router → t ≡ s)
  unfolding router_page
  add_router_iff spare s h = (
    λ e.
        rw (router_page, e)
          (contents-append spare zero_router s.router s.routers s.router_store h.fits, refl),
    λ ne. ground (arith, ne),
  )

  -- If a list of complete routers is saved and then, with at least one row in the table, a router
  -- with an address of the list is removed, the saved list, which was not saved again, is the list
  -- that is left with an empty router behind it, and what is left is the list without its last
  -- router of that address.
  pub save_routers-select_router :
      (spare : ℕ → ℕ) (rows : ℕ) (ip : Bytes) (s : Session)
      → HasRouters s
      → 1 < rows
      → ¬ All (λ v. has_address ip v ≡ false) (routers s)
      → let t =
          session is_ip spare
            (on_routers save_routers
              ∷ on_routers (remove_router rows)
              ∷ on_routers (select_router ip)
              ∷ [])
            s in
        ((save_and_quit t).batch.routers ≡ routers t ++ zero_router ∷ [])
        × Removes (has_address ip) (routers s) (routers t)
  unfolding router_page save_and_quit session callback
  save_routers-select_router spare rows ip s h shown some_match = simp (lt→ltb 1 rows shown) (
    remove_last-stale (has_address ip) zero_router s.routers s.router_store h.fits some_match,
    contents-remove_last (has_address ip) zero_router s.routers s.router_store h.fits,
  )
