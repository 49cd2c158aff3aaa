-- ===== src/Content.antt =====
-- internal/types/clipboard.go (clipboard items), and HistoryOptions of internal/config/config.go.
use clipman_daemon.Prelude.{
  ℕ, Bool, true, false, ◌&&◌, ◌==◌, Option, none, some, Bytes, codes, bytes_equal,
}
use clipman_daemon.Prelude.Int.{ℤ}

-- `type ContentType string`: any text may come back from the database.
abbrev pub ContentType : Type 0
ContentType = Bytes

abbrev pub type_unknown : ContentType
type_unknown = codes "unknown"

abbrev pub type_string : ContentType
type_string = codes "string"

abbrev pub type_text : ContentType
type_text = codes "text"

abbrev pub type_image : ContentType
type_image = codes "image"

abbrev pub type_file : ContentType
type_file = codes "file"

abbrev pub type_url : ContentType
type_url = codes "url"

abbrev pub type_filepath : ContentType
type_filepath = codes "filepath"

abbrev pub type_html : ContentType
type_html = codes "html"

abbrev pub type_rtf : ContentType
type_rtf = codes "rtf"

-- A `time.Time`: the nanoseconds since Go's zero time (1 January of year 1, UTC), and the zone in
-- which the time is printed. Times before the zero time do not occur in the program.
pub record Timestamp : Type 0 where
  pub instant : ℕ
  pub zone : ℕ

-- t.IsZero()
abbrev pub is_zero : Timestamp → Bool
is_zero t = t.instant == 0

-- time.Time{}
abbrev pub zero_time : Timestamp
zero_time = record { instant = 0; zone = 0 }

pub record ClipboardContent : Type 0 where
  pub content_type : ContentType
  pub content_data : Bytes
  pub created : Timestamp
  pub compressed : Bool

-- `Equal`; `none` is the nil pointer. Two pointers that are not nil are compared by their contents.
unfoldable pub content_equal : Option ClipboardContent → Option ClipboardContent → Bool
content_equal none none = true
content_equal none (some d) = false
content_equal (some c) none = false
content_equal (some c) (some d) =
    bytes_equal c.content_type d.content_type && bytes_equal c.content_data d.content_data

-- The empty type filter stands for every type; bounds that are not positive are no bounds.
pub record HistoryOptions : Type 0 where
  pub limit : ℤ
  pub since : Timestamp
  pub before : Timestamp
  pub filter_type : ContentType
  pub reversed : Bool
  pub min_size : ℤ
  pub max_size : ℤ
