-- ===== src/Config/Outcomes.antt =====
-- What a caller of ConfigLoader::load can rely on.
use http_storm.Common.{
  ℕ, Bool, true, false, Bytes, [], Option, none, some, ◌⊎◌, ◌≡◌, ◌≢◌, refl, arith,
}
use http_storm.Config.{ServerConfig, hardware_threads}
use http_storm.Config.Loading.{
  JsonOps, parsed, unreadable, ConfigLoader, fields, set_all, with_threads, load_json, load,
}

hardware_threads-positive : (concurrency : ℕ) → hardware_threads concurrency ≢ 0
hardware_threads-positive concurrency e = ground (arith, e)

module _ {J : Type 0} (json : JsonOps J) where
  -- The configuration is usable, or an error is reported.
  abbrev pub Reported : ConfigLoader → ConfigLoader → Bool → Type 0
  Reported loader after ok =
      ((ok ≡ true)
        × (after.config.thread_pool_size ≢ 0)
        × (after.error_message ≡ loader.error_message))
      ⊎ ((ok ≡ false) × (after.error_message ≢ []))

  -- A value comes back, or an exception leaves the loader as it was: the one that the library throws on a text
  -- that it cannot read for another reason than its syntax.
  abbrev pub Returns : Option Bytes → ConfigLoader → ConfigLoader × Option Bool → Type 0
  Returns contents loader x =
      ((ok : Bool) × (x.1 ≡ some ok) × Reported loader x.0 ok)
      ⊎ ((text : Bytes) × (contents ≡ some text)
          × (json.parse text ≡ unreadable)
          × (x ≡ (loader, none)))

  fields-absent :
      (j : J) (config : ServerConfig)
      → ((key : Bytes) → json.member j key ≡ none)
      → set_all (fields json j) config ≡ (config, true)
  unfolding fields set_all
  fields-absent j config absent = simp absent

  -- A file whose object has none of the keys changes nothing, but that a pool without a number of threads
  -- gets the hardware's.
  pub load-absent :
      (concurrency : ℕ) (filepath text : Bytes) (j : J) (loader : ConfigLoader)
      → json.parse text ≡ parsed j
      → ((key : Bytes) → json.member j key ≡ none)
      → load json concurrency filepath (some text) loader
        ≡ (record loader { config = with_threads json concurrency loader.config }, some true)
  unfolding load load_json
  load-absent concurrency filepath text j loader e absent =
      rw (e, load, fields-absent j loader.config absent) refl
