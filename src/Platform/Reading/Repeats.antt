-- ===== src/Platform/Reading/Repeats.antt =====
-- internal/platform/clipboard_linux.go: which contents `Read` gives again.
use clipman_daemon.Prelude.{
  ℕ, ◌≡◌, refl, inl, inr, false, none, List, Bytes, bytes_equal, Bool-cases, Option-cases,
}
use clipman_daemon.Content.{ClipboardContent, Timestamp}
use clipman_daemon.Platform.Session.{Session}
use clipman_daemon.Platform.Retry.{with_retry}
use clipman_daemon.Platform.Cache.{get_cached_content}
use clipman_daemon.Platform.Reading.{
  Reader, ReadResult, Packages, content, unchanged, failed, read, read_special, deliver,
  deliver_text, get_available_formats, read_clipboard_content,
}

-- The data of a content are those of the reader, and differ from the ones before; without a content
-- the reader keeps its data.
abbrev pub IsNew : Reader → Reader × ReadResult → Type 0
IsNew r (r', content c) =
    (bytes_equal c.content_data r.last_content ≡ false) × (r'.last_content ≡ c.content_data)
IsNew r (r', unchanged) = r'.last_content ≡ r.last_content
IsNew r (r', failed) = r'.last_content ≡ r.last_content

deliver-IsNew :
    (r : Reader) (formats : List Bytes) (now : Timestamp) (c : ClipboardContent)
    → IsNew r (deliver r formats now c)
unfolding deliver
deliver-IsNew r formats now c = elim (Bool-cases (bytes_equal c.content_data r.last_content)) [
  | inl same ↦ rw (deliver, same) refl
  | inr differs ↦ rw (deliver, differs) (differs, refl)
]

deliver_text-IsNew :
    (p : Packages) (r : Reader) (formats : List Bytes) (now : Timestamp) (d : Bytes)
    → IsNew r (deliver_text p r formats now d)
unfolding deliver_text
deliver_text-IsNew p r formats now d = elim (Bool-cases (bytes_equal d r.last_content)) [
  | inl same ↦ rw (deliver_text, same) refl
  | inr differs ↦ rw (deliver_text, differs) (differs, refl)
]

-- A read that the cache does not answer gives only data that differ from the last ones that were read
-- or written, and makes them the last ones; any other outcome leaves the last ones as they were.
pub read-IsNew :
    (p : Packages) (attempts : ℕ → Session) (now : Timestamp) (r : Reader)
    → get_cached_content r.clipboard now.instant ≡ none
    → IsNew r (read p attempts now r)
unfolding read
read-IsNew p attempts now r cold =
    let formats = get_available_formats r.clipboard (attempts 0) now.instant in
    elim (Option-cases (read_special p (attempts 0) now r.clipboard formats)) [
      | inr (c, found) ↦ rw (read, cold, found) (deliver-IsNew r formats now c)
      | inl nothing ↦
          elim (Option-cases (with_retry (λ n. read_clipboard_content (attempts n))).0) [
            | inl error ↦ rw (read, cold, nothing, error) refl
            | inr (d, text) ↦ rw (read, cold, nothing, text) (deliver_text-IsNew p r formats now d)
          ]
    ]
