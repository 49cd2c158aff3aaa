-- ===== src/Platform/Cache.antt =====
-- internal/platform/clipboard_linux.go: the cache of the clipboard's content, and the registry of
-- custom MIME types.
use clipman_daemon.Prelude.{
  ℕ, ◌≡◌, refl, inl, inr, Bool, true, false, not, Option, none, some, List, [], Bytes, bytes_equal,
  is_some, if◌then◌else◌, arith, Bool-cases,
}
use clipman_daemon.Prelude.Int.{ℤ, pos, ltb_ℤ, ◌-ℤ◌}
use clipman_daemon.Prelude.Dict.{
  Dict, lookup, insert, delete, keys, lookup-insert_self, lookup-delete_self,
}
use clipman_daemon.Content.{ClipboardContent, ContentType}
use clipman_daemon.Platform.Polling.{times_int64, millisecond}

pub record ContentCache : Type 0 where
  pub cached : ClipboardContent
  pub cached_hash : Bytes
  pub cached_formats : List Bytes
  pub last_access_time : ℕ

-- A handler of a custom type; `none` is a nil function.
pub record CustomMimeTypeHandler : Type 0 where
  pub mime_type : Bytes
  pub type_id : ContentType
  pub description : Bytes
  pub detect_func : Option (Bytes → Bool)
  pub convert_func : Option (Bytes → ContentType → Option Bytes)

-- The fields of LinuxClipboard that the operations below use. Times are in nanoseconds.
pub record LinuxClipboard : Type 0 where
  pub content_cache : Option ContentCache
  pub cache_enabled : Bool
  pub cache_expiry : ℤ
  pub custom_types : Dict CustomMimeTypeHandler

pub data RegisterError : Type 0 where
  empty_mime_type empty_type_id nil_detect_func already_registered : RegisterError

unfoldable pub enable_cache : LinuxClipboard → Bool → LinuxClipboard
enable_cache c enabled = record c { cache_enabled = enabled }

unfoldable pub set_cache_expiry : LinuxClipboard → ℤ → LinuxClipboard
set_cache_expiry c expiry_ms = record c {
  cache_expiry = times_int64 (if ltb_ℤ expiry_ms (pos 100) then pos 100 else expiry_ms) millisecond;
}

unfoldable pub clear_cache : LinuxClipboard → LinuxClipboard
clear_cache c = record c { content_cache = none }

unfoldable pub is_cache_valid : LinuxClipboard → ℕ → Bool
is_cache_valid c now = if not c.cache_enabled then false else elim c.content_cache [
  | none ↦ false
  | some k ↦ ltb_ℤ (pos now -ℤ pos k.last_access_time) c.cache_expiry
]

-- The copy of the content leaves its flag `compressed` at false.
unfoldable pub get_cached_content : LinuxClipboard → ℕ → Option ClipboardContent
unfolding is_cache_valid
get_cached_content c now = if not (is_cache_valid c now) then none else elim c.content_cache [
  | none ↦ none
  | some k ↦ some (record (k.cached) { compressed = false })
]

unfoldable pub update_cache :
    LinuxClipboard → ClipboardContent → Bytes → List Bytes → ℕ → LinuxClipboard
update_cache c content hash formats now = if not c.cache_enabled then c else record c {
  content_cache = some (record {
    cached = content;
    cached_hash = hash;
    cached_formats = formats;
    last_access_time = now;
  });
}

unfoldable pub register_custom_mime_type :
    LinuxClipboard → CustomMimeTypeHandler → LinuxClipboard × Option RegisterError
register_custom_mime_type c handler =
    if bytes_equal handler.mime_type []
    then (c, some empty_mime_type)
    else if bytes_equal handler.type_id []
    then (c, some empty_type_id)
    else if not (is_some handler.detect_func)
    then (c, some nil_detect_func)
    else if is_some (lookup handler.mime_type c.custom_types)
    then (c, some already_registered)
    else (record c { custom_types = insert handler.mime_type handler c.custom_types }, none)

unfoldable pub unregister_custom_mime_type : LinuxClipboard → Bytes → LinuxClipboard
unregister_custom_mime_type c mime_type =
    if is_some (lookup mime_type c.custom_types)
    then record c { custom_types = delete mime_type c.custom_types }
    else c

unfoldable pub get_registered_custom_mime_types : LinuxClipboard → List Bytes
get_registered_custom_mime_types c = keys c.custom_types

-- After an update with the cache enabled, the cache gives the content until the expiry has passed,
-- and not from then on, nor once the cache is cleared or disabled.
pub get_cached_content-update_cache :
    (c : LinuxClipboard) (content : ClipboardContent) (hash : Bytes) (formats : List Bytes)
    (t now : ℕ)
    → c.cache_enabled ≡ true
    → (get_cached_content (update_cache c content hash formats t) now ≡ (
        if ltb_ℤ (pos now -ℤ pos t) c.cache_expiry
        then some (record content { compressed = false })
        else none))
      × (get_cached_content (clear_cache (update_cache c content hash formats t)) now ≡ none)
      × (get_cached_content (enable_cache (update_cache c content hash formats t) false) now ≡ none)
unfolding get_cached_content is_cache_valid update_cache clear_cache enable_cache
get_cached_content-update_cache c content hash formats t now on =
    elim (Bool-cases (ltb_ℤ (pos now -ℤ pos t) c.cache_expiry)) [
      | inl fresh ↦ simp (on, fresh) (refl, refl, refl)
      | inr stale ↦ simp (on, stale) (refl, refl, refl)
    ]

register_accepted :
    (c : LinuxClipboard) (h : CustomMimeTypeHandler)
    → (register_custom_mime_type c h).1 ≡ none
    → (bytes_equal h.mime_type [] ≡ false)
      × (register_custom_mime_type c h
          ≡ (record c { custom_types = insert h.mime_type h c.custom_types }, none))
unfolding register_custom_mime_type
register_accepted c h ok = ground (arith, ok)

-- After an accepted registration the handler is found under its name, a second handler of that name
-- that is complete is refused as registered, and removing the name removes the handler.
pub register_custom_mime_type_lem :
    (c : LinuxClipboard) (h g : CustomMimeTypeHandler)
    → (register_custom_mime_type c h).1 ≡ none
    → g.mime_type ≡ h.mime_type
    → bytes_equal g.type_id [] ≡ false
    → is_some g.detect_func ≡ true
    → (lookup h.mime_type (register_custom_mime_type c h).0.custom_types ≡ some h)
      × (register_custom_mime_type (register_custom_mime_type c h).0 g
          ≡ ((register_custom_mime_type c h).0, some already_registered))
      × (lookup h.mime_type
            (unregister_custom_mime_type (register_custom_mime_type c h).0 h.mime_type).custom_types
          ≡ none)
unfolding register_custom_mime_type unregister_custom_mime_type
register_custom_mime_type_lem c h g ok same t d =
    let r = register_accepted c h ok in
    rw (r.1, lookup-insert_self, same)
      (
        refl,
        ground (arith, lookup-insert_self h.mime_type h c.custom_types, r.0, t, d, same),
        lookup-delete_self h.mime_type (insert h.mime_type h c.custom_types),
      )
