-- ===== src/Cli/Service/Installing.antt =====
-- internal/cli/cmd/service.go: what installing and uninstalling do to the files.
use clipman_daemon.Prelude.{
  ◌≡◌, refl, ap, ◌∙◌, List, [], ◌∷◌, codes, if◌then◌else◌, true, false, none, some, Bytes, arith,
  inl, inr, Bool-cases, Option-cases, bytes_equal, bytes_equal_sound, is_some,
}
use clipman_daemon.Prelude.Dict.{
  Dict, lookup, insert, lookup-insert, lookup-delete, lookup-insert_self,
}
use clipman_daemon.Cli.Service.{
  Platform, Surroundings, World, windows, darwin, linux, already_exists, run, get_service_file,
  stop_service, enable_on, enable_service, systemctl, disable_on, disable_service, file_exists,
  install_service, uninstall_service,
}

-- A file that no command changes, whatever the files.
abbrev pub IsUntouched : Surroundings → Bytes → Type 0
IsUntouched s q =
    (command : List Bytes) (files : Dict Bytes) → lookup q (s.effect command files) ≡ lookup q files

module _ (s : Surroundings) (q : Bytes) (untouched : IsUntouched s q) where
  enable_service-lookup : (w : World) → lookup q (enable_service s w).0.files ≡ lookup q w.files
  unfolding enable_service enable_on run
  enable_service-lookup w = go s.platform
    where
      go : (p : Platform) → lookup q (enable_on s p w).0.files ≡ lookup q w.files
      go windows = refl
      go darwin = untouched _ w.files
      go linux = elim (Bool-cases (s.runs (systemctl s (codes "daemon-reload" ∷ [])))) [
        | inl reloaded ↦ rw (enable_on, reloaded) (untouched _ _ ∙ untouched _ w.files)
        | inr not_reloaded ↦ rw (enable_on, not_reloaded) (untouched _ w.files)
      ]

  disable_service-lookup : (w : World) → lookup q (disable_service s w).0.files ≡ lookup q w.files
  unfolding disable_service disable_on run
  disable_service-lookup w = go s.platform
    where
      go : (p : Platform) → lookup q (disable_on s p w).0.files ≡ lookup q w.files
      go windows = untouched _ w.files
      go darwin = refl
      go linux = untouched _ w.files

  stop_service-lookup : (w : World) → lookup q (stop_service s w).0.files ≡ lookup q w.files
  unfolding stop_service run
  stop_service-lookup w = untouched _ w.files

  -- An installation where there is no file writes it.
  install_service-lookup :
      (w : World) (path text : Bytes)
      → get_service_file s ≡ some (path, text)
      → file_exists path w ≡ false
      → s.makes_dir ≡ true
      → s.writes ≡ true
      → lookup q (install_service s w).0.files ≡ lookup q (insert path text w.files)
  unfolding install_service
  install_service-lookup w path text known absent dir written = ground (
    arith,
    known,
    absent,
    dir,
    written,
    enable_service-lookup (record w { files = insert path text w.files }),
  )

  -- An uninstallation removes a file that is there.
  uninstall_service-lookup :
      (w : World) (path text : Bytes)
      → get_service_file s ≡ some (path, text)
      → file_exists path w ≡ true
      → s.removes ≡ true
      → (lookup q (uninstall_service s w).0.files
          ≡ (if bytes_equal path q then none else lookup q w.files))
        × ((uninstall_service s w).1 ≡ none)
  unfolding uninstall_service
  uninstall_service-lookup w path text known present removed =
      let w' = (disable_service s (stop_service s w).0).0 in
      (
        ground (
          arith,
          known,
          present,
          removed,
          lookup-delete path q w'.files
              ∙ ap (λ o. if bytes_equal path q then none else o)
                  (disable_service-lookup (stop_service s w).0 ∙ stop_service-lookup w),
        ),
        ground (arith, known, present, removed),
      )

installed :
    (s : Surroundings) (w : World) (path text : Bytes)
    → IsUntouched s path
    → get_service_file s ≡ some (path, text)
    → file_exists path w ≡ false
    → s.makes_dir ≡ true
    → s.writes ≡ true
    → file_exists path (install_service s w).0 ≡ true
unfolding file_exists
installed s w path text untouched known absent dir written =
    rw
      (
        install_service-lookup s path untouched w path text known absent dir written,
        lookup-insert_self,
      )
      refl

given_back :
    (path text q : Bytes) (files : Dict Bytes)
    → is_some (lookup path files) ≡ false
    → (if bytes_equal path q then none else lookup q (insert path text files)) ≡ lookup q files
given_back path text q files absent = elim (Bool-cases (bytes_equal path q)) [
  | inl same ↦
      ground (arith, same, absent, ap (λ k. lookup k files) (bytes_equal_sound path q same))
  | inr other ↦ ground (arith, other, lookup-insert path q text files)
]

-- Where there was no service file and it can be written and removed, and no command changes it,
-- uninstalling after an installation succeeds, and what each file was that no command changes it is
-- again, the service file included, whether the service could be enabled or not.
pub uninstall-install :
    (s : Surroundings) (w : World) (path text q : Bytes)
    → IsUntouched s path
    → IsUntouched s q
    → get_service_file s ≡ some (path, text)
    → file_exists path w ≡ false
    → s.makes_dir ≡ true
    → s.writes ≡ true
    → s.removes ≡ true
    → (lookup q (uninstall_service s (install_service s w).0).0.files ≡ lookup q w.files)
      × ((uninstall_service s (install_service s w).0).1 ≡ none)
unfolding file_exists
uninstall-install s w path text q own other known absent dir written removed =
    let gone =
      uninstall_service-lookup s q other (install_service s w).0 path text known
        (installed s w path text own known absent dir written) removed in
    (
      gone.0
          ∙ ap (λ o. if bytes_equal path q then none else o)
              (install_service-lookup s q other w path text known absent dir written)
          ∙ given_back path text q w.files absent,
      gone.1,
    )

-- Without --force, an installation that was written but could not be enabled is not tried again: the
-- next one is refused and changes nothing.
pub install_twice :
    (s : Surroundings) (w : World) (path text : Bytes)
    → IsUntouched s path
    → get_service_file s ≡ some (path, text)
    → file_exists path w ≡ false
    → s.makes_dir ≡ true
    → s.writes ≡ true
    → s.force_service ≡ false
    → install_service s (install_service s w).0 ≡ ((install_service s w).0, some already_exists)
unfolding install_service
install_twice s w path text untouched known absent dir written no_force =
    refused (install_service s w).0 (installed s w path text untouched known absent dir written)
  where
    refused :
        (w' : World) → file_exists path w' ≡ true → install_service s w' ≡ (w', some already_exists)
    refused w' there = simp (install_service, known, there, no_force)

enable_on_windows :
    (s : Surroundings) (w : World) → s.platform ≡ windows → enable_service s w ≡ (w, none)
unfolding enable_service enable_on
enable_on_windows s w on = ap (λ p. enable_on s p w) on

-- On Windows installing runs no command: the script is only written.
install_on_windows :
    (s : Surroundings) (w : World)
    → s.platform ≡ windows
    → (install_service s w).0.commands ≡ w.commands
unfolding install_service
install_on_windows s w on = elim (Option-cases (get_service_file s)) [
  | inl unknown ↦ ground (arith, unknown)
  | inr ((path, text), known) ↦
      ground (arith, known, enable_on_windows s (record w { files = insert path text w.files }) on)
]
