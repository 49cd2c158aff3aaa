-- ===== src/Platform/Closing.antt =====
-- internal/platform/clipboard_linux.go: the temporary files, and `Close`.
use mathlib.Core.List.{append-nil}
use clipman_daemon.Prelude.{
  ℕ, ◌≡◌, refl, Bool, false, Option, none, some, List, [], ◌∷◌, ◌++◌, Bytes,
}
use clipman_daemon.Platform.Cache.{LinuxClipboard, clear_cache}

-- The fields of LinuxClipboard that Close touches, beside the cache; a process is its number. `killed`
-- and `removed` are what was asked of the system, the last one last.
pub record Resources : Type 0 where
  pub clipboard : LinuxClipboard
  pub is_running : Bool
  pub xfixes_proc : Option ℕ
  pub mir_proc : Option ℕ
  pub temp_files : List Bytes
  pub killed : List ℕ
  pub removed : List Bytes

unfoldable pub add_temp_file : Bytes → Resources → Resources
add_temp_file path r = record r { temp_files = r.temp_files ++ path ∷ [] }

-- A file that cannot be removed is logged, and forgotten as the others.
unfoldable pub cleanup_temp_files : Resources → Resources
cleanup_temp_files r = record r { temp_files = []; removed = r.removed ++ r.temp_files }

abbrev to_kill : Option ℕ → List ℕ
to_kill none = []
to_kill (some pid) = pid ∷ []

unfoldable pub close : Resources → Resources
unfolding clear_cache cleanup_temp_files
close r = cleanup_temp_files (record r {
  clipboard = clear_cache r.clipboard;
  is_running = false;
  xfixes_proc = none;
  mir_proc = none;
  killed = r.killed ++ (to_kill r.xfixes_proc ++ to_kill r.mir_proc);
})

-- A second Close kills nothing and removes nothing.
close_again : (r : Resources) → close (close r) ≡ close r
unfolding close
close_again r = rw (append-nil (close r).killed, append-nil (close r).removed) refl
