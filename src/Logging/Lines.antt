-- ===== src/Logging/Lines.antt =====
-- What endpointLogger of proxybatcher/logging.go writes, by the logger's level.
use dhcp_batcher.Common.{
  Bytes, bytes, str_eq, false, Option, none, some, List, [], ◌∷◌, ◌++◌, ◌≡◌, ◌⊎◌, inl, inr, refl,
  All, Bool-cases,
}
use dhcp_batcher.Logging.{
  LogLine, block, Level, error_level, warn_level, info_level, endpoint_logger, written,
}

-- The modes of endpointLogger.
abbrev pub known_modes : List Bytes
known_modes = bytes "get" ∷ bytes "post" ∷ bytes "auth" ∷ [] ∷ []

-- The level of the headline.
abbrev pub headline_level : Option Bytes → Level
headline_level none = info_level
headline_level (some e) = warn_level

-- Lines with one headline: at level info it is written alone, at level warn it is written if there
-- was an error, and at level error nothing is.
pub record Headed (err : Option Bytes) (lines : List LogLine) : Type 0 where
  pub headline : LogLine
  pub level : headline.level ≡ headline_level err
  pub at_info : written info_level lines ≡ headline ∷ []
  pub at_warn : written warn_level lines ≡ elim err [ none ↦ [] | some e ↦ headline ∷ [] ]
  pub at_error : written error_level lines ≡ []

block-Headed : (text : Bytes) (query err : Option Bytes) → Headed err (block text query err)
unfolding written
block-Headed text none none = record {
  headline = record { level = info_level; text = text };
  level = refl;
  at_info = refl;
  at_warn = refl;
  at_error = refl;
}
block-Headed text (some q) none = record {
  headline = record { level = info_level; text = text };
  level = refl;
  at_info = refl;
  at_warn = refl;
  at_error = refl;
}
block-Headed text none (some e) = record {
  headline = record { level = warn_level; text = text };
  level = refl;
  at_info = refl;
  at_warn = refl;
  at_error = refl;
}
block-Headed text (some q) (some e) = record {
  headline = record { level = warn_level; text = text };
  level = refl;
  at_info = refl;
  at_warn = refl;
  at_error = refl;
}

module _ (endpoint_uri condition router_ip rawquery : Bytes) where
  -- EndpointLogger writes nothing in a mode that it does not know, and in any other its lines come
  -- to one headline at level info, to the headline if there was an error and nothing otherwise at
  -- level warn, and to nothing at level error.
  pub endpoint_logger-Headed :
      (err : Option Bytes) (mode : Bytes)
      → let lines = endpoint_logger endpoint_uri condition router_ip rawquery err mode in
        (All (λ m. str_eq mode m ≡ false) known_modes × (lines ≡ [])) ⊎ Headed err lines
  unfolding endpoint_logger
  endpoint_logger-Headed err mode =
      let what = endpoint_uri ++ (bytes ":" ++ condition) in
      let text = what ++ (bytes ", source " ++ router_ip) in
      let auth_text = bytes "auth: " ++ (what ++ (bytes " " ++ router_ip)) in
      elim (Bool-cases (str_eq mode (bytes "get"))) [
        | inl get ↦
            inr
              (rw (endpoint_logger, get) (block-Headed (bytes "get: " ++ text) (some rawquery) err))
        | inr not_get ↦ elim (Bool-cases (str_eq mode (bytes "post"))) [
          | inl post ↦
              inr (
                rw (endpoint_logger, not_get, post)
                  (block-Headed (bytes "post: " ++ text) none err))
          | inr not_post ↦ elim (Bool-cases (str_eq mode (bytes "auth"))) [
            | inl auth ↦
                inr
                  (rw (endpoint_logger, not_get, not_post, auth) (block-Headed auth_text none err))
            | inr not_auth ↦ elim (Bool-cases (str_eq mode [])) [
              | inl plain ↦ inr (
                  rw (endpoint_logger, not_get, not_post, not_auth, plain)
                    (block-Headed text (some rawquery) err))
              | inr unknown ↦ inl (
                (not_get, (not_post, (not_auth, (unknown, tt)))),
                rw (endpoint_logger, not_get, not_post, not_auth, unknown) refl,
              )
            ]
          ]
        ]
      ]
