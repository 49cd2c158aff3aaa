-- ===== src/Tests/Linux.antt =====
-- The theorems on reading and writing the clipboard of Linux at concrete inputs.
use clipman_daemon.Prelude.{
  ℕ, ◌≡◌, ◌≢◌, ◌≤◌, ◌⊎◌, refl, true, false, none, some, Option, List, [], ◌∷◌, Bytes, codes,
  bytes_equal, ◌==◌, if◌then◌else◌, map,
}
use clipman_daemon.Prelude.Int.{pos, negsuc}
use clipman_daemon.Content.{ClipboardContent, Timestamp, type_text, type_html}
use clipman_daemon.Platform.Session.{Session}
use clipman_daemon.Platform.Retry.{with_retry, with_retry_lem}
use clipman_daemon.Platform.Formats.{contains}
use clipman_daemon.Platform.TypeDetection.{Probes}
use clipman_daemon.Platform.Cache.{get_cached_content, set_cache_expiry}
use clipman_daemon.Platform.Uris.{parse_uri_data, gnome_format, uri_format, file_content}
use clipman_daemon.Platform.Uris.RoundTrip.{IsUriPath, IsPath, parse_uri_data-format}
use clipman_daemon.Platform.Reading.{Reader, Packages, content, read, read_special}
use clipman_daemon.Platform.Reading.Repeats.{IsNew, read-IsNew}
use clipman_daemon.Platform.Monitoring.{
  MonitorEvent, changed, program_ended, gave_way, wayland_loop,
}
use clipman_daemon.Platform.Monitoring.Sent.{wayland_loop_stays}
use clipman_daemon.Platform.Writing.{WritePackages, write, handler_of}
use clipman_daemon.Platform.Writing.Echo.{read-write}
use clipman_daemon.Tests.Samples.{text_at}

abbrev page : Bytes
page = codes "<p>hi</p>"

-- An X11 desktop whose clipboard holds a page, in its one format.
abbrev desktop : Session
desktop = record {
  display = true;
  wayland_display = false;
  mir_socket = false;
  look_path = λ c. bytes_equal c (codes "xclip");
  run = λ args input.
      if contains args (codes "TARGETS") then some (codes "text/html\n") else some page;
  read_all = none;
  write_all = λ d. true;
}

abbrev probes : Probes
probes = record {
  html_pattern = λ d. false;
  url_pattern = λ d. false;
  url_parses = λ d. true;
  stat = λ d. true;
  json_paths = λ d. none;
  decode_config = λ d. none;
}

abbrev marshal : List Bytes → Option Bytes
marshal files = some (codes "[]")

abbrev packages : Packages
packages = record { probes = probes; query_unescape = some; marshal = marshal }

abbrev reader : Reader
reader = record {
  clipboard = record {
    content_cache = none;
    cache_enabled = true;
    cache_expiry = pos 1_000;
    custom_types = [];
  };
  last_content = page;
}

abbrev at_time : ℕ → Timestamp
at_time n = record { instant = n; zone = 0 }

abbrev page_item : ClipboardContent
page_item = record {
  content_type = type_html;
  content_data = page;
  created = at_time 5;
  compressed = false;
}

nothing_cached : get_cached_content reader.clipboard 5 ≡ none
unfolding get_cached_content
nothing_cached = refl

read-IsNew_example : IsNew reader (read packages (λ n. desktop) (at_time 5) reader)
read-IsNew_example = read-IsNew packages (λ n. desktop) (at_time 5) reader nothing_cached

abbrev write_packages : WritePackages
write_packages = record {
  probes = probes;
  scan = λ d. [];
  convert_to_png = λ d format. none;
  temp_image_file = λ d. none;
}

abbrev greeting : ClipboardContent
greeting = text_at 1 (codes "hello")

greeting_is_written : (write write_packages desktop (some greeting) reader).1.succeeds ≡ true
unfolding write bytes_equal
greeting_is_written = refl

no_handler : handler_of [] type_text ≡ none
unfolding handler_of
no_handler = refl

page_is_read :
    (read packages
      (λ n. desktop)
      (at_time 5)
      (write write_packages desktop (some greeting) reader).0).1
    ≡ content page_item
unfolding read write bytes_equal read_special clipman_daemon.Text.split_lines
    clipman_daemon.Text.trim_space clipman_daemon.Text.space_size clipman_daemon.Text.is_space
    clipman_daemon.Text.is_space2 clipman_daemon.Text.is_space3 clipman_daemon.Text.space_size_rev
    clipman_daemon.Platform.Reading.deliver
page_is_read = refl

read-write_example : bytes_equal page (codes "hello") ≡ false
read-write_example =
    read-write write_packages desktop greeting reader packages (λ n. desktop) (at_time 5) page_item
      greeting_is_written no_handler page_is_read

abbrev third_time : ℕ → Option ℕ
third_time n = if n == 2 then some 7 else none

with_retry_lem_example :
    ((with_retry third_time).0 ≡ some 7)
    × ((with_retry third_time).1 ≤ 300)
    × ((third_time 0 ≡ none) ⊎ ((with_retry third_time).1 ≡ 0))
with_retry_lem_example = with_retry_lem third_time

a-IsPath : IsPath (codes "/a")
unfolding bytes_equal clipman_daemon.Text.trim_space clipman_daemon.Text.space_size
    clipman_daemon.Text.is_space clipman_daemon.Text.is_space2 clipman_daemon.Text.space_size_rev
a-IsPath = ((refl, (refl, tt)), refl)

a-IsUriPath : IsUriPath (codes "/c")
unfolding clipman_daemon.Text.trim_space clipman_daemon.Text.space_size clipman_daemon.Text.is_space
    clipman_daemon.Text.is_space2 clipman_daemon.Text.is_space3 clipman_daemon.Text.space_size_rev
a-IsUriPath = ((refl, (refl, tt)), refl)

parse_uri_data-format_example :
    (parse_uri_data some marshal (at_time 5) (gnome_format (codes "/a" ∷ []))
      ≡ file_content marshal (at_time 5) (codes "/a" ∷ []))
    × (parse_uri_data some marshal (at_time 5) (uri_format (codes "/c" ∷ []))
        ≡ file_content marshal (at_time 5) (map (λ p. p) (codes "/c" ∷ [])))
parse_uri_data-format_example =
    parse_uri_data-format some marshal (at_time 5) (λ p. p) (codes "/a") [] (codes "/c" ∷ [])
      (a-IsPath, tt) (refl, tt) (a-IsUriPath, tt)

-- Its cache is enabled and expires after the time 1000.
abbrev unread : Reader
unread = record { clipboard = reader.clipboard; last_content = [] }

-- The page is copied twice; then the program that tells of changes ends.
abbrev two_changes : List MonitorEvent
two_changes =
    changed (λ n. desktop) (at_time 1_005) true
    ∷ changed (λ n. desktop) (at_time 2_010) true
    ∷ program_ended (λ n. desktop) (at_time 3_010) true
    ∷ []

wayland_loop_stays_example : (wayland_loop packages true unread two_changes).2 ≢ gave_way
wayland_loop_stays_example = wayland_loop_stays packages two_changes unread

-- An expiry below 100 milliseconds is raised to them.
expiry_raised : (set_cache_expiry reader.clipboard (negsuc 6)).cache_expiry ≡ pos 100_000_000
unfolding set_cache_expiry
expiry_raised = refl
