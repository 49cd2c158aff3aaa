-- ===== src/Config/Loading.antt =====
-- internal/config/config.go: what the first run writes, and what a later run makes of it.
use clipman_daemon.Prelude.{
  ◌≡◌, refl, sym, ap, ◌∙◌, inl, inr, Bool, true, false, Option, none, some, [], Bytes, codes,
  bytes_equal, if◌then◌else◌, arith, Option-cases,
}
use clipman_daemon.Prelude.Int.{ℤ}
use clipman_daemon.Config.{
  System, Config, loaded, load, finish, prepared, save, override_from_env, computed, default_config,
  default_system_paths, env_text, env_bool, env_int, get_system_paths, get_default_device_name,
  data_dir_or_temp, get_default_data_dir,
}

-- A text that is filled in when it is empty, is kept by the next run, also if the value that is filled
-- in has changed.
text_again :
    (getenv : Bytes → Bytes) (name a u v : Bytes)
    → bytes_equal u [] ≡ false
    → let x = env_text getenv name a in
      let y = if bytes_equal x [] then u else x in
      (if bytes_equal (env_text getenv name y) [] then v else env_text getenv name y) ≡ y
unfolding env_text
text_again getenv name a u v filled = ground (arith, filled)

dir_again :
    (getenv : Bytes → Bytes) (name a u : Bytes)
    → let x = env_text getenv name a in
      let y = if bytes_equal x [] then u else x in
      (if bytes_equal (env_text getenv name y) [] then u else env_text getenv name y) ≡ y
unfolding env_text
dir_again getenv name a u = ground arith

env_text-env_text :
    (getenv : Bytes → Bytes) (name a : Bytes)
    → env_text getenv name (env_text getenv name a) ≡ env_text getenv name a
unfolding env_text
env_text-env_text getenv name a = ground arith

env_bool-env_bool :
    (getenv : Bytes → Bytes) (name : Bytes) (a : Bool)
    → env_bool getenv name (env_bool getenv name a) ≡ env_bool getenv name a
unfolding env_bool
env_bool-env_bool getenv name a = ground arith

env_int-env_int :
    (getenv : Bytes → Bytes) (atoi : Bytes → Option ℤ) (name : Bytes) (a : ℤ)
    → env_int getenv atoi name (env_int getenv atoi name a) ≡ env_int getenv atoi name a
unfolding env_int
env_int-env_int getenv atoi name a = ground arith

module _ {D : Type 0} (os : System D) where
  device_name_not_empty :
      bytes_equal os.uuid [] ≡ false → bytes_equal (get_default_device_name os) [] ≡ false
  unfolding get_default_device_name
  device_name_not_empty u = ground (arith, u)

  -- The system in a later run: another UUID, and other files.
  abbrev later : Bytes → (Bytes → Option (Option D)) → System D
  later uuid files = record os { uuid = uuid; files = files }

  computed_again :
      (c : Config) (uuid : Bytes) (files : Bytes → Option (Option D))
      → bytes_equal os.uuid [] ≡ false
      → prepared (later uuid files) (prepared os c) ≡ prepared os c
  unfolding prepared computed override_from_env get_system_paths data_dir_or_temp
      get_default_data_dir
  computed_again c uuid files u =
      rw
        (
          text_again os.getenv (codes "CLIPMAN_DEVICE_ID") c.device_id os.uuid uuid u,
          text_again os.getenv (codes "CLIPMAN_DEVICE_NAME") c.device_name
              (get_default_device_name os) (get_default_device_name (later uuid files))
              (device_name_not_empty u),
          dir_again os.getenv (codes "CLIPMAN_DATA_DIR") c.system_paths.data_dir
              (data_dir_or_temp os),
          env_bool-env_bool os.getenv (codes "CLIPMAN_SYNC_ENABLED") c.sync.enabled,
          env_bool-env_bool os.getenv (codes "CLIPMAN_SYNC_INTERNET") c.sync.sync_over_internet,
          env_bool-env_bool os.getenv (codes "CLIPMAN_SYNC_RELAY") c.sync.use_relay_nodes,
          env_int-env_int os.getenv os.atoi (codes "CLIPMAN_SYNC_PORT") c.sync.listen_port,
          env_text-env_text os.getenv (codes "CLIPMAN_SYNC_DISCOVERY") c.sync.discovery_method,
          env_bool-env_bool os.getenv (codes "CLIPMAN_STEALTH_MODE") c.stealth_mode,
          env_int-env_int os.getenv os.parse_int (codes "CLIPMAN_POLLING_INTERVAL")
              c.polling_interval,
        )
        refl

  finish_new :
      (c c' : Config) (file : Bytes) (d : D)
      → finish os false c ≡ loaded c' (some (file, d))
      → (c' ≡ c)
        × (file ≡ c.system_paths.config_file)
        × (d ≡ os.encode c')
        × (os.mkdir_all c.system_paths.data_dir ≡ true)
  unfolding finish save
  finish_new c c' file d h = ground (arith, h)

  finish_old :
      (c c' : Config) (file : Bytes × D) → finish os true c ≡ loaded c' (some file) → false ≡ true
  unfolding finish
  finish_old c c' file h = ground (arith, h)

  -- A run that writes a configuration found no file.
  first_run :
      (path : Bytes) (c : Config) (file : Bytes × D)
      → load os path ≡ loaded c (some file)
      → finish os false (prepared os (default_config os)) ≡ loaded c (some file)
  unfolding load
  first_run path c file h = elim (Option-cases (os.files path')) [
    | inl new ↦ rw (load, new) at h
    | inr (none, unread) ↦ cc (rw (load, unread) at h)
    | inr (some d, there) ↦ elim (Option-cases (os.decode d (default_config os))) [
      | inl wrong ↦ cc (rw (load, there, wrong) at h)
      | inr (c', read) ↦ cc (finish_old _ _ _ (rw (load, there, read) at h))
    ]
  ]
    where
      path' : Bytes
      path' = if bytes_equal path [] then (default_config os).system_paths.config_file else path

  config_file-prepared :
      (prepared os (default_config os)).system_paths.config_file
      ≡ (default_system_paths os).config_file
  unfolding prepared computed override_from_env get_system_paths default_config default_system_paths
  config_file-prepared = refl

  same_file :
      (c : Config) (path : Bytes)
      → c.system_paths.config_file ≡ path
      → record c { system_paths = record (c.system_paths) { config_file = path } } ≡ c
  same_file c path h =
      ap (λ p. record c { system_paths = record (c.system_paths) { config_file = p } }) (sym h)

  next_run :
      (c : Config) (uuid : Bytes) (files : Bytes → Option (Option D)) (d : D)
      → files (default_system_paths os).config_file ≡ some (some d)
      → ((b : Config) → os.decode d b ≡ some c)
      → c.system_paths.config_file ≡ (default_system_paths os).config_file
      → prepared (later uuid files) c ≡ c
      → os.mkdir_all c.system_paths.data_dir ≡ true
      → load (later uuid files) [] ≡ loaded c none
  unfolding load finish default_config default_system_paths data_dir_or_temp get_default_data_dir
      bytes_equal
  next_run c uuid files d there decodes path again made =
      rw
        (
          there,
          decodes (default_config (later uuid files)),
          same_file c (default_system_paths os).config_file path,
          again,
          made,
        )
        refl

  -- A first run, whatever the path that it is given, writes its configuration to the default file, not to
  -- that path. The next run with no path, in the same environment but for the UUID that it makes and with
  -- that file in place, loads that configuration, and writes nothing; if what was encoded is decoded
  -- over any configuration, and a UUID is not empty.
  pub load-load :
      (path uuid : Bytes) (files : Bytes → Option (Option D)) (c : Config) (file : Bytes) (d : D)
      → ((c b : Config) → os.decode (os.encode c) b ≡ some c)
      → bytes_equal os.uuid [] ≡ false
      → load os path ≡ loaded c (some (file, d))
      → files file ≡ some (some d)
      → (file ≡ (default_system_paths os).config_file)
        × (load (later uuid files) [] ≡ loaded c none)
  load-load path uuid files c file d decodes u wrote there =
      let r =
        finish_new (prepared os (default_config os)) c file d (first_run path c (file, d) wrote) in
      let at_default = r.1 ∙ config_file-prepared in
      let again : prepared (later uuid files) c ≡ c =
        ap (prepared (later uuid files)) r.0
        ∙ computed_again (default_config os) uuid files u
        ∙ sym r.0 in
      (
        at_default,
        next_run c uuid files d (ap files (sym at_default) ∙ there)
            (λ b. ap (λ x. os.decode x b) r.2 ∙ decodes c b)
            (ap (λ x. x.system_paths.config_file) r.0 ∙ config_file-prepared) again
            (ap (λ x. os.mkdir_all x.system_paths.data_dir) r.0 ∙ r.3),
      )
