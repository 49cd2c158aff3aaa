-- ===== src/Clipboard/Processing/Laws.antt =====
-- What the content processor of internal/clipboard/content_processing.go lets through.
use clipman_daemon.Prelude.{
  ◌≡◌, refl, Bool, true, false, ◌||◌, none, some, List, [], ◌∷◌, Bytes, length, arith, All,
  bytes_equal, if◌then◌else◌, Bool-cases, Option-cases, inl, inr,
}
use clipman_daemon.Prelude.Int.{ℤ, pos, negsuc, ltb_ℤ}
use clipman_daemon.Text.{trim_space}
use clipman_daemon.Text.Trim.{trim_space_idem, length-trim_space-le}
use clipman_daemon.Content.{ClipboardContent, type_text, type_string, type_url, type_file}
use clipman_daemon.Clipboard.Processing.{
  Files, ContentFilter, ContentProcessor, process_by_type, transform_all, filter_all, process,
  trim_transformer, process_text_content, process_url_content, process_file_path_content,
}

-- The processor as NewMonitor sets it up.
abbrev pub monitor_processor : ℤ → ContentProcessor
monitor_processor max = record {
  filters = [];
  transformers = trim_transformer ∷ [];
  max_size_bytes = max;
}

-- Whether the type of an item has its data trimmed.
abbrev pub is_trimmed_type : ClipboardContent → Bool
is_trimmed_type c =
    bytes_equal c.content_type type_text
    || bytes_equal c.content_type type_string
    || bytes_equal c.content_type type_url

module _ (files : Files) where
  filter_all-All :
      (fs : List ContentFilter) (c d : ClipboardContent)
      → filter_all files fs c ≡ some d
      → All (λ f. f d ≡ true) fs × (c ≡ d)
  unfolding filter_all
  filter_all-All [] c d h = (tt, ground arith)
  filter_all-All (f ∷ fs) c d h = elim (Bool-cases (f c)) [
    | inl keeps ↦
        let ih = filter_all-All fs c d (rw keeps at h) in ((rw (← ih.1) keeps, ih.0), ih.1)
    | inr drops ↦ cc (rw drops at h)
  ]

  -- What comes out of the processor passes every filter, and came in within the size limit.
  pub process-All :
      (cp : ContentProcessor) (c d : ClipboardContent)
      → process files cp (some c) ≡ some d
      → All (λ f. f d ≡ true) cp.filters
        × (ltb_ℤ cp.max_size_bytes (pos (length c.content_data)) ≡ false)
  unfolding process
  process-All cp c d h = elim (Bool-cases (ltb_ℤ cp.max_size_bytes (pos (length c.content_data)))) [
    | inl big ↦ cc (rw big at h)
    | inr small ↦
        elim (Option-cases (transform_all files cp.transformers (process_by_type files c))) [
          | inl e ↦ cc (rw (small, e) at h)
          | inr (t, e) ↦ ((filter_all-All cp.filters t d (rw (small, e) at h)).0, small)
        ]
  ]

  -- For every type but a list of files, the Monitor's processor drops what is over the limit, trims
  -- text and URLs, and changes nothing else.
  pub process_lem :
      (max : ℤ) (c : ClipboardContent)
      → bytes_equal c.content_type type_file ≡ false
      → process files (monitor_processor max) (some c) ≡ (
          if ltb_ℤ max (pos (length c.content_data))
          then none
          else if is_trimmed_type c
          then some (record c { content_data = trim_space c.content_data })
          else some c)
  unfolding process process_by_type transform_all filter_all trim_transformer process_text_content
      process_url_content process_file_path_content
  process_lem max c h = ground (arith, trim_space_idem c.content_data)

  some_inj : {x y : ClipboardContent} → some x ≡ some y → x ≡ y
  some_inj h = ground (arith, h)

  fits_after_trim :
      (max : ℤ) (d : Bytes)
      → ltb_ℤ max (pos (length d)) ≡ false
      → ltb_ℤ max (pos (length (trim_space d))) ≡ false
  fits_after_trim (pos m) d h = ground (arith, length-trim_space-le d)
  fits_after_trim (negsuc m) d h = ground arith

  -- For every type but a list of files: what came out of the Monitor's processor comes out of it again
  -- unchanged.
  pub process_idem :
      (max : ℤ) (c d : ClipboardContent)
      → bytes_equal c.content_type type_file ≡ false
      → process files (monitor_processor max) (some c) ≡ some d
      → process files (monitor_processor max) (some d) ≡ some d
  process_idem max c d h p = elim (Bool-cases (ltb_ℤ max (pos (length c.content_data)))) [
    | inl big ↦ cc (rw (process_lem max c h, big) at p)
    | inr small ↦ elim (Bool-cases (is_trimmed_type c)) [
      | inl trimmed ↦
          let e = some_inj (rw (process_lem max c h, small, trimmed) at p) in
          rw (← e) (
            rw
              (
                process_lem max (record c { content_data = trim_space c.content_data }) h,
                trimmed,
                fits_after_trim max c.content_data small,
                trim_space_idem c.content_data,
              )
              refl)
      | inr kept ↦ let e = some_inj (rw (process_lem max c h, small, kept) at p) in (rw e at p)
    ]
  ]
