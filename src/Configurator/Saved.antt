-- ===== src/Configurator/Saved.antt =====
-- proxybatcher/configurator.go: what a session can save, and what checkConfig of
-- proxybatcher/options.go says to it.
use dhcp_batcher.Common.{
  ap, ℕ, Bytes, bytes, Bool, true, false, List, [], ◌≡◌, ◌⊎◌, inl, refl, arith,
}
use dhcp_batcher.Options.{ProgramConfig}
use dhcp_batcher.Options.Check.{System, lower}
use dhcp_batcher.Options.Check.Passes.{ConfigOk}
use dhcp_batcher.Configurator.{
  Session, BatchDraft, open_session, save_and_quit, loaded_batch, zero_batch,
}
use dhcp_batcher.Configurator.Frames.{session_keeps}
use dhcp_batcher.Configurator.Pages.{
  sonar_page, save_batch, batch_page, router_page, proxy_page, logging_page, UiEvent, save_mode,
  on_sonar, on_batch, on_routers, on_proxy, on_logging, callback, session,
}

-- The three batch options that no callback writes, and the routers of the page of the batch options.
abbrev Agrees : BatchDraft → BatchDraft → Type 0
Agrees b c =
    (b.endpoint_username ≡ c.endpoint_username)
    × (b.endpoint_password ≡ c.endpoint_password)
    × (b.server_ip ≡ c.server_ip)

record Kept (opened : BatchDraft) (s : Session) : Type 0 where
  pub working : Agrees s.batch opened
  pub routers : s.batch.routers ≡ opened.routers
  pub saved : Agrees s.config.batch zero_batch ⊎ Agrees s.config.batch opened

module _ (is_ip : Bytes → Bool) (spare : ℕ → ℕ) (opened : BatchDraft) where
  callback-Kept :
      (e : UiEvent) (s : Session) → Kept opened s → Kept opened (callback is_ip spare e s)
  unfolding callback sonar_page batch_page router_page proxy_page logging_page
  callback-Kept (save_mode option) s h = record {
    working = h.working;
    routers = h.routers;
    saved = h.saved;
  }
  callback-Kept (on_sonar e) s h = record {
    working = ground arith;
    routers = ground arith;
    saved = ground arith;
  }
  callback-Kept (on_batch e) s h = record {
    working = ground arith;
    routers = ground arith;
    saved = ground arith;
  }
  callback-Kept (on_routers e) s h = record {
    working = ground arith;
    routers = ground arith;
    saved = ground arith;
  }
  callback-Kept (on_proxy e) s h = record {
    working = ground arith;
    routers = ground arith;
    saved = ground arith;
  }
  callback-Kept (on_logging e) s h = record {
    working = ground arith;
    routers = ground arith;
    saved = ground arith;
  }

  session-Kept :
      (events : List UiEvent) (s : Session)
      → Kept opened s
      → Kept opened (session is_ip spare events s)
  session-Kept = session_keeps is_ip spare (Kept opened) callback-Kept

module _ (is_ip : Bytes → Bool) (spare : ℕ → ℕ) where
  loaded-Kept :
      (options : ProgramConfig) (events : List UiEvent)
      → Kept
          (loaded_batch options.batch)
          (session is_ip spare events (open_session spare true options))
  unfolding open_session
  loaded-Kept options events =
      session-Kept is_ip spare (loaded_batch options.batch) events (open_session spare true options)
        (record { working = (refl, refl, refl); routers = refl; saved = inl (refl, refl, refl) })

  fresh-Kept :
      (options : ProgramConfig) (events : List UiEvent)
      → Kept zero_batch (session is_ip spare events (open_session spare false options))
  unfolding open_session
  fresh-Kept options events =
      session-Kept is_ip spare zero_batch events (open_session spare false options)
        (record { working = (refl, refl, refl); routers = refl; saved = inl (refl, refl, refl) })

  -- What a session over loaded options saves as the endpoint's user name and password and as the
  -- batcher's address is all empty or all as it was loaded.
  pub save_and_quit-loaded :
      (options : ProgramConfig) (events : List UiEvent)
      → let saved =
          (save_and_quit (session is_ip spare events (open_session spare true options))).batch in
        ((saved.endpoint_username ≡ []) × (saved.endpoint_password ≡ []) × (saved.server_ip ≡ []))
        ⊎ ((saved.endpoint_username ≡ options.batch.endpoint_username)
            × (saved.endpoint_password ≡ options.batch.endpoint_password)
            × (saved.server_ip ≡ options.batch.server_ip))
  unfolding save_and_quit
  save_and_quit-loaded options events = (loaded-Kept options events).saved

  -- In a session of the configurator without loaded options, saving the page of the batch options
  -- with an address that parses leaves a configuration without routers, whatever was saved before.
  pub save_batch-drops_routers :
      (options : ProgramConfig) (events : List UiEvent) (text : Bytes)
      → is_ip text ≡ true
      → (save_and_quit (
          callback is_ip spare
            (on_batch (save_batch text))
            (session is_ip spare events (open_session spare false options)))).batch.routers
        ≡ []
  unfolding save_and_quit callback batch_page
  save_batch-drops_routers options events text e =
      rw (batch_page, e, (fresh-Kept options events).routers) refl

module _ (sys : System) (spare : ℕ → ℕ) where
  -- Options that agree in the batch mode with those that a session without loaded options saves do not
  -- meet the requirements of batch mode, whatever was entered.
  pub fresh-not_ok :
      (options : ProgramConfig) (events : List UiEvent) (checked : ProgramConfig)
      → checked.batch
        ≡ (save_and_quit (session sys.is_ip spare events (open_session spare false options))).batch
      → lower sys checked.operation_mode ≡ bytes "batch"
      → ¬ ConfigOk sys checked
  unfolding save_and_quit
  fresh-not_ok options events checked quit mode accepted =
      let ok = accepted.batch mode in
      let kept = fresh-Kept sys.is_ip spare options events in
      ground (arith, ok.username, kept.saved, ap (λ b. b.endpoint_username) quit)
