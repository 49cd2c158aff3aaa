-- ===== src/Clipboard/Monitor/Repeats.antt =====
-- What the loop of internal/clipboard/monitor.go keeps of an item, and when it knows it again.
use clipman_daemon.Prelude.{
  ◌≡◌, sym, ap, ◌∙◌, inl, inr, ◌&&◌, some, bytes_equal, arith, Option-cases,
}
use clipman_daemon.Content.{ClipboardContent, Timestamp}
use clipman_daemon.Storage.{save_content}
use clipman_daemon.Clipboard.History.{add}
use clipman_daemon.Clipboard.Detection.{detect_content_type}
use clipman_daemon.Clipboard.Processing.{process}
use clipman_daemon.Clipboard.Monitor.{
  Monitor, Services, is_content_equal, prepare_content, keep_content, process_new_content,
}

module _ (s : Services) where
  some_inj : {x y : Monitor} → some x ≡ some y → x ≡ y
  some_inj h = ground (arith, h)

  -- An item that is kept goes to the history and becomes the last item, whether or not it could be
  -- saved and published.
  pub keep_content_lem :
      (m m' : Monitor) (c : ClipboardContent) (now : Timestamp)
      → keep_content s m c now ≡ some m'
      → (add m.history c now ≡ some m'.history)
        × (m'.last_content ≡ some c)
        × (m'.storage ≡ (save_content s.backend m.storage c).0)
  unfolding keep_content
  keep_content_lem m m' c now h = elim (Option-cases (add m.history c now)) [
    | inl e ↦ cc (rw (keep_content, e) at h)
    | inr (history', e) ↦
        let k = some_inj (rw (keep_content, e) at h) in
        (
          e ∙ ap (λ n. some n.history) k,
          ap (λ n. n.last_content) (sym k),
          ap (λ n. n.storage) (sym k),
        )
  ]

  -- After an item was taken in, the same item from the platform is recognised exactly if the type
  -- that was detected is its own and the processor left its data unchanged.
  pub redelivery_lem :
      (m m' : Monitor) (c d : ClipboardContent) (now : Timestamp)
      → process s.files m.content_processor (some c) ≡ some d
      → d.created ≡ c.created
      → process_new_content s m c now ≡ some m'
      → is_content_equal (some c) m'.last_content ≡ (
          bytes_equal c.content_type (detect_content_type s.url_parse d.content_data)
          && bytes_equal c.content_data d.content_data)
  unfolding process_new_content prepare_content is_content_equal
  redelivery_lem m m' c d now p same h =
      let k = keep_content_lem m m' (prepare_content s d) now (rw (process_new_content, p) at h) in
      rw (k.1, same) (ground arith)
