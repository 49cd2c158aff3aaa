-- ===== src/Tests/Samples.antt =====
-- A backend that meets the laws, and sample data. Its encodings are simpler than JSON and RFC 3339;
-- its gzip changes nothing.
use clipman_daemon.Prelude.{
  ℕ, ◌≤◌, ◌<◌, ◌≡◌, refl, ap, sym, ◌∙◌, Bool, true, false, Option, none, some, [], ◌∷◌, ◌++◌, Bytes,
  codes, length, take, drop, ltb, ◌==◌, if◌then◌else◌, arith, take-append_length, length-append,
}
use clipman_daemon.Prelude.Int.{ℤ, pos}
use clipman_daemon.Content.{ClipboardContent, Timestamp, type_text, HistoryOptions, zero_time}
use clipman_daemon.Compression.{Gzip, GzipLaws}
use clipman_daemon.Storage.{BoltStorage}
use clipman_daemon.Storage.Cursor.{Bucket, upsert, remove}
use clipman_daemon.Storage.Services.{Backend, BackendLaws, max_key_size, max_value_size}

abbrev pub gzip : Gzip
gzip = record {
  compress = some;
  uncompress = some;
  encode_to_string = λ d. d;
  decode_string = some;
}

pub gzip_laws : GzipLaws gzip
gzip_laws = record { decode-encode = λ d. refl; uncompress-compress = λ d z h. sym h }

abbrev flag_of : Bool → ℕ
flag_of false = 0
flag_of true = 1

abbrev pub encode : ClipboardContent → Bytes
encode c =
    flag_of c.compressed
      ∷ c.created.instant
      ∷ c.created.zone
      ∷ length c.content_type
      ∷ c.content_type
    ++ c.content_data

abbrev decode : Bytes → Option ClipboardContent
decode (flag ∷ instant ∷ zone ∷ size ∷ rest) = some (record {
  content_type = take size rest;
  content_data = drop size rest;
  created = record { instant = instant; zone = zone };
  compressed = flag == 1;
})
decode _ = none

drop-append_length : (xs ys : Bytes) → drop (length xs) (xs ++ ys) ≡ ys
drop-append_length [] ys = refl
drop-append_length (x ∷ xs) ys = drop-append_length xs ys

flag_back : (b : Bool) → (flag_of b == 1) ≡ b
flag_back true = refl
flag_back false = refl

decode-encode : (c : ClipboardContent) → decode (encode c) ≡ some c
decode-encode c =
    rw
      (
        take-append_length c.content_type c.content_data (length c.content_type) refl,
        drop-append_length c.content_type c.content_data,
        flag_back c.compressed,
      )
      refl

encode_grows : (c : ClipboardContent) → length c.content_data < length (encode c)
encode_grows c = omega (arith, length-append c.content_type c.content_data)

abbrev print_time : Timestamp → Bytes
print_time t = t.instant ∷ t.zone ∷ []

abbrev parse_time : Bytes → Option Timestamp
parse_time (instant ∷ zone ∷ []) = some (record { instant = instant; zone = zone })
parse_time _ = none

abbrev checked_put : Bytes → Bytes → Bucket → Option Bucket
checked_put k v b =
    if length k == 0
    then none
    else if ltb max_key_size (length k)
    then none
    else if ltb max_value_size (length v)
    then none
    else some (upsert k v b)

abbrev pub backend : Backend
backend = record {
  gzip = gzip;
  marshal = λ c. some (encode c);
  unmarshal = decode;
  format = print_time;
  parse = parse_time;
  put = checked_put;
  delete = λ k b. some (remove k b);
}

some_inj : {x y : Bytes} → some x ≡ some y → x ≡ y
some_inj h = ground (arith, h)

checked_put_ok :
    (k v : Bytes) (b : Bucket)
    → 0 < length k
    → length k ≤ max_key_size
    → length v ≤ max_value_size
    → checked_put k v b ≡ some (upsert k v b)
checked_put_ok k v b h1 h2 h3 = ground arith

checked_put_large :
    (k v : Bytes) (b : Bucket) → max_value_size < length v → checked_put k v b ≡ none
checked_put_large k v b h = ground arith

pub backend_laws : BackendLaws backend
backend_laws = record {
  gzip_laws = gzip_laws;
  unmarshal-marshal = λ c v h. ap decode (sym (some_inj h)) ∙ decode-encode c;
  marshal_grows = λ c v h. rw (← some_inj h) (encode_grows c);
  format_size = λ t. (omega arith, omega arith);
  parse-format = λ t. (t, refl, refl);
  put_ok = checked_put_ok;
  put_too_large = checked_put_large;
  delete_ok = λ k b. refl;
}

-- A text made at an instant.
abbrev pub text_at : ℕ → Bytes → ClipboardContent
text_at t d = record {
  content_type = type_text;
  content_data = d;
  created = record { instant = t; zone = 0 };
  compressed = false;
}

abbrev pub entry_of : ClipboardContent → Bytes × Bytes
entry_of c = (print_time c.created, encode c)

abbrev pub at : ℕ → Timestamp
at t = record { instant = t; zone = 0 }

-- Three texts, at the instants 5, 6 and 7.
abbrev pub three_items : Bucket
three_items =
    entry_of (text_at 5 (codes "one"))
    ∷ entry_of (text_at 6 (codes "two"))
    ∷ entry_of (text_at 7 (codes "three"))
    ∷ []

abbrev pub storage_with : ℤ → Bucket → BoltStorage
storage_with max b = record {
  db = b;
  cache_size = pos 40;
  max_size = max;
  storage_device_id = [];
  keep_items = 2;
}

abbrev pub all_history : HistoryOptions
all_history = record {
  limit = pos 2;
  since = zero_time;
  before = zero_time;
  filter_type = [];
  reversed = false;
  min_size = pos 0;
  max_size = pos 0;
}
