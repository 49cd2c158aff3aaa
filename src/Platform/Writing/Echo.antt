-- ===== src/Platform/Writing/Echo.antt =====
-- internal/platform/clipboard_linux.go: what was written to the clipboard is not taken for a change.
use clipman_daemon.Prelude.{
  ℕ, ◌≡◌, refl, inl, inr, true, false, none, some, [], ◌∷◌, Bytes, bytes_equal, arith, Bool-cases,
}
use clipman_daemon.Content.{ClipboardContent, Timestamp}
use clipman_daemon.Platform.Session.{Session}
use clipman_daemon.Platform.Cache.{LinuxClipboard, get_cached_content, clear_cache, is_cache_valid}
use clipman_daemon.Platform.Reading.{Reader, ReadResult, Packages, read, content, unchanged, failed}
use clipman_daemon.Platform.Reading.Repeats.{IsNew, read-IsNew}
use clipman_daemon.Platform.Writing.{WritePackages, write, write_built_in, handler_of}

content_inj : {c d : ClipboardContent} → content c ≡ content d → c ≡ d
content_inj h = ground (arith, h)

content-IsNew :
    (r : Reader) (x : Reader × ReadResult) (d : ClipboardContent)
    → IsNew r x
    → x.1 ≡ content d
    → bytes_equal d.content_data r.last_content ≡ false
content-IsNew r (r', content c) d new h = rw (← content_inj h) new.0
content-IsNew r (r', unchanged) d new h = cc
content-IsNew r (r', failed) d new h = cc

get_cached_content-clear_cache :
    (c : LinuxClipboard) (now : ℕ) → get_cached_content (clear_cache c) now ≡ none
unfolding get_cached_content clear_cache is_cache_valid
get_cached_content-clear_cache c now = ground arith

written_by :
    (p : WritePackages) (s : Session) (c : ClipboardContent) (r : Reader)
    → (write p s (some c) r).1.succeeds ≡ true
    → handler_of r.clipboard.custom_types c.content_type ≡ none
    → (write p s (some c) r).0
      ≡ record { clipboard = clear_cache r.clipboard; last_content = c.content_data }
unfolding write
written_by p s c r ok built_in = go c.content_data refl
  where
    go :
        (d : Bytes)
        → c.content_data ≡ d
        → (write p s (some c) r).0
          ≡ record { clipboard = clear_cache r.clipboard; last_content = c.content_data }
    go [] e = cc (rw (write, e) at ok)
    go (b ∷ d) e = elim (Bool-cases (write_built_in p s c.content_type (b ∷ d)).succeeds) [
      | inl done ↦ rw (write, e, built_in, done) refl
      | inr error ↦ absurd (ground (arith, rw (write, e, built_in, error) at ok, error))
    ]

-- After a write of a built-in type that succeeds, the read that follows gives no item with the data that
-- were written, whatever programs and formats the desktop answers with.
pub read-write :
    (wp : WritePackages) (s : Session) (c : ClipboardContent) (r : Reader) (p : Packages)
    (attempts : ℕ → Session) (now : Timestamp) (d : ClipboardContent)
    → (write wp s (some c) r).1.succeeds ≡ true
    → handler_of r.clipboard.custom_types c.content_type ≡ none
    → (read p attempts now (write wp s (some c) r).0).1 ≡ content d
    → bytes_equal d.content_data c.content_data ≡ false
read-write wp s c r p attempts now d ok built_in given =
    let e = written_by wp s c r ok built_in in
    content-IsNew r' (read p attempts now r') d
      (read-IsNew p attempts now r' (get_cached_content-clear_cache r.clipboard now.instant))
      (rw (← e) given)
  where
    r' : Reader
    r' = record { clipboard = clear_cache r.clipboard; last_content = c.content_data }
