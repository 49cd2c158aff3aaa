-- ===== src/Compression.antt =====
-- pkg/compression/compression.go. Gzip and base64 are the standard library's, and enter as functions
-- that may fail.
use clipman_daemon.Prelude.{
  ◌≡◌, ◌>>=◌, refl, sym, ap, inl, inr, arith, Bool-cases, Option-cases, ℕ, true, false, not, Option,
  some, Bytes, length, ltb, if◌then◌else◌,
}
use clipman_daemon.Content.{ClipboardContent}

-- gzip.Writer, gzip.Reader and base64.StdEncoding; `none` is an error.
pub record Gzip : Type 0 where
  pub compress : Bytes → Option Bytes
  pub uncompress : Bytes → Option Bytes
  pub encode_to_string : Bytes → Bytes
  pub decode_string : Bytes → Option Bytes

-- Reading back what was written gives the same bytes.
pub record GzipLaws (g : Gzip) : Type 0 where
  pub decode-encode : (d : Bytes) → g.decode_string (g.encode_to_string d) ≡ some d
  pub uncompress-compress : (d z : Bytes) → g.compress d ≡ some z → g.uncompress z ≡ some d

abbrev pub compression_threshold : ℕ
compression_threshold = 1024

module _ (g : Gzip) where
  unfoldable pub compress_content : ClipboardContent → Option ClipboardContent
  compress_content c = if ltb (length c.content_data) compression_threshold then some c else do
    buf ← g.compress c.content_data
    some (record c { content_data = g.encode_to_string buf; compressed = true })

  -- The three error returns are one `none`.
  unfoldable pub decompress_content : ClipboardContent → Option ClipboardContent
  decompress_content c = if not c.compressed then some c else do
    decoded ← g.decode_string c.content_data
    plain ← g.uncompress decoded
    some (record c { content_data = plain; compressed = false })

  same_content :
      (c : ClipboardContent)
      → c.compressed ≡ false
      → some (record c { compressed = false }) ≡ some c
  same_content c plain = ap (λ b. some (record c { compressed = b })) (sym plain)

  some_inj : {x y : ClipboardContent} → some x ≡ some y → x ≡ y
  some_inj h = ground (arith, h)

  -- Decompressing what an item that was not compressed has been compressed to gives the item again.
  pub decompress-compress :
      (laws : GzipLaws g) (c d : ClipboardContent)
      → c.compressed ≡ false
      → compress_content c ≡ some d
      → decompress_content d ≡ some c
  unfolding compress_content decompress_content
  decompress-compress laws c d plain h =
      elim (Bool-cases (ltb (length c.content_data) compression_threshold)) [
        | inl small ↦ let e = some_inj (rw small at h) in rw (← e, plain) refl
        | inr large ↦ elim (Option-cases (g.compress c.content_data)) [
          | inl z ↦ cc (rw (large, z) at h)
          | inr (z, m) ↦
              let e = some_inj (rw (large, m) at h) in
              rw (← e, laws.decode-encode z, laws.uncompress-compress c.content_data z m)
                (same_content c plain)
        ]
      ]
