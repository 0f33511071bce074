-- ===== src/Logger/Lines.antt =====
-- What Logger writes to its sinks once `init` has been called.
use mathlib.Core.Option.{some-injective}
use http_storm.Common.{
  is_empty, codes, equal, Bool, true, false, Bytes, [], ◌∷◌, if◌then◌else◌, none, some, Bool-cases,
  if_true, if_false, inl, inr, ◌↔◌, ◌≡◌, refl, sym, ap, ◌∙◌,
}
use http_storm.Middleware.{AccessEntry}
use http_storm.Logger.{
  Spdlog, Logger, new_logger, access_stdout, access_file_sink, access_of, access_name, main_logger,
  access_line, init, init_access, log_access,
}

module _ (spdlog : Spdlog) (level log_file : Bytes) where
  -- Whether spdlog opens the files that are configured.
  abbrev pub opens_files : Bool
  opens_files =
      if is_empty log_file
      then true
      else if spdlog.opens log_file
      then spdlog.opens (access_name log_file)
      else false

  abbrev initialized : Logger
  initialized = record {
    logger = some (main_logger spdlog level log_file);
    access_logger = some (access_of log_file);
    registered = codes "access" ∷ codes "hphttp" ∷ [];
  }

  init-first :
      init spdlog level log_file new_logger ≡ (if opens_files then some initialized else none)
  unfolding init equal
  init-first = elim (Bool-cases (is_empty log_file)) [
    | inl e ↦ rw (init, e, init_access, e) refl
    | inr e ↦ elim (Bool-cases (spdlog.opens log_file)) [
      | inr f ↦ rw (init, e, f) refl
      | inl f ↦ elim (Bool-cases (spdlog.opens (access_name log_file))) [
        | inr g ↦ rw (init, e, f, init_access, e, g) refl
        | inl g ↦ rw (init, e, f, init_access, e, g) refl
      ]
    ]
  ]

  -- `init` returns just if spdlog opens the files that are configured.
  init-opens :
      (opens_files ≡ true) ↔ ((l : Logger) × (init spdlog level log_file new_logger ≡ some l))
  init-opens = elim (Bool-cases opens_files) [
    | inl e ↦
        (λ f. (initialized, init-first ∙ if_true opens_files (some initialized) none e), λ f. e)
    | inr e ↦ (
      λ f. absurd (let k : false ≡ true = sym e ∙ f in cc),
      λ (l, f). absurd (
          let k : none ≡ some l =
            sym (init-first ∙ if_false opens_files (some initialized) none e) ∙ f in
          cc),
    )
  ]

  log_access-initialized :
      (entry : AccessEntry)
      → log_access spdlog entry initialized
        ≡ (access_stdout, access_line spdlog entry)
          ∷ (if is_empty log_file
              then []
              else (access_file_sink log_file, access_line spdlog entry) ∷ [])
  unfolding log_access
  log_access-initialized entry = elim (Bool-cases (is_empty log_file)) [
    | inl e ↦ rw e refl
    | inr e ↦ rw e refl
  ]

  -- When Logger::init has returned, spdlog has opened the files that are configured, and log_access writes its
  -- line once on the console and once to the access file, if a log file is configured, whatever the level of the
  -- configuration; before, log_access writes nothing.
  pub log_access-init :
      (entry : AccessEntry) (l : Logger)
      → init spdlog level log_file new_logger ≡ some l
      → (opens_files ≡ true)
        × (log_access spdlog entry new_logger ≡ [])
        × (log_access spdlog entry l
            ≡ (access_stdout, access_line spdlog entry)
              ∷ (if is_empty log_file
                  then []
                  else (access_file_sink log_file, access_line spdlog entry) ∷ []))
  unfolding log_access
  log_access-init entry l e =
      let opened = init-opens.1 (l, e) in
      let same =
        some-injective initialized l
          (sym (init-first ∙ if_true opens_files (some initialized) none opened) ∙ e) in
      (opened, refl, ap (log_access spdlog entry) (sym same) ∙ log_access-initialized entry)
