-- ===== src/Clipboard/History/Window.antt =====
-- What the ring of internal/clipboard/history.go holds after any additions, and what GetLast returns.
use mathlib.Core.List.{reverse-cons, append_assoc, map-append, append-nil}
use native.Mathlib.Decide.{dec_lt}
use clipman_daemon.Prelude.{
  ℕ, zero, suc, ◌+◌, ◌-◌, ◌≤◌, ◌<◌, ◌≡◌, refl, sym, ap, ◌∙◌, Option, none, some, List, [], ◌∷◌,
  ◌++◌, map, reverse, length, replicate, take, drop, arith, ltb, if◌then◌else◌, true, length-append,
  length-drop, take_of_length-le, Bool-cases, inl, inr, ltb→lt,
}
use clipman_daemon.Clipboard.History.{
  HistoryItem, ClipboardHistory, new_clipboard_history, add, collect, get_last,
}

-- Additions one after the other, each with its time.
unfoldable pub add_all : ClipboardHistory → List HistoryItem → Option ClipboardHistory
add_all ch [] = some ch
add_all ch (i ∷ is) = elim (add ch i.item_content i.item_time) [
  | none ↦ none
  | some ch' ↦ add_all ch' is
]

abbrev ring : ℕ → List HistoryItem → List (Option HistoryItem)
ring free items = replicate free none ++ map some items

-- The last `size` items.
abbrev pub last_items : ℕ → List HistoryItem → List HistoryItem
last_items size xs = drop (length xs - size) xs

abbrev ring_of : ℕ → List HistoryItem → ClipboardHistory
ring_of size xs = record { slots = ring (size - length xs) (last_items size xs); size = size }

collect-some :
    (n : ℕ) (items : List HistoryItem) (room : ℕ) (xs : List HistoryItem)
    → n ≡ length items + room
    → collect n items (map some xs) ≡ reverse (take room xs) ++ items
unfolding collect
collect-some n items zero [] h = refl
collect-some n items (suc room) [] h = refl
collect-some n items zero (x ∷ xs) h = ground (arith, collect-some n items zero xs h)
collect-some n items (suc room) (x ∷ xs) h =
    let fits : ltb (length items) n ≡ true = ground arith in
    rw (fits, collect)
      (collect-some n (x ∷ items) room xs (omega arith)
        ∙ sym (
            ap (λ l. l ++ items) (reverse-cons x (take room xs))
            ∙ append_assoc (reverse (take room xs)) (x ∷ []) items))

collect-ring :
    (n free : ℕ) (xs : List HistoryItem) → collect n [] (ring free xs) ≡ reverse (take n xs)
unfolding collect
collect-ring n zero xs = collect-some n [] n xs (omega arith) ∙ append-nil (reverse (take n xs))
collect-ring n (suc free) xs = collect-ring n free xs

drop-append_suc :
    (k : ℕ) (ys zs rest : List HistoryItem) (z : HistoryItem)
    → drop k ys ≡ z ∷ rest
    → drop (suc k) (ys ++ zs) ≡ rest ++ zs
drop-append_suc zero [] zs rest z h = cc
drop-append_suc zero (y ∷ ys) zs rest z h = ground arith
drop-append_suc (suc k) [] zs rest z h = cc
drop-append_suc (suc k) (y ∷ ys) zs rest z h = drop-append_suc k ys zs rest z h

ring-append :
    (free : ℕ) (xs : List HistoryItem) (i : HistoryItem)
    → ring free xs ++ some i ∷ [] ≡ ring free (xs ++ i ∷ [])
ring-append free xs i =
    append_assoc (replicate free none) (map some xs) (some i ∷ [])
    ∙ ap (λ l. replicate free none ++ l) (sym (map-append some xs (i ∷ [])))

-- Where a slot is free, it is used; else the oldest item gives way.
add_free :
    (size free : ℕ) (xs : List HistoryItem) (i : HistoryItem)
    → add (record { slots = ring (suc free) xs; size = size }) i.item_content i.item_time
      ≡ some (record { slots = ring free (xs ++ i ∷ []); size = size })
unfolding add
add_free size free xs i = ap (λ l. some (record { slots = l; size = size })) (ring-append free xs i)

add_full :
    (size k : ℕ) (ys l : List HistoryItem) (i : HistoryItem)
    → drop k ys ≡ l
    → 0 < length l
    → add (record { slots = ring 0 (drop k ys); size = size }) i.item_content i.item_time
      ≡ some (record { slots = ring 0 (drop (suc k) (ys ++ i ∷ [])); size = size })
unfolding add
add_full size k ys [] i h pos = absurd (omega arith)
add_full size k ys (z ∷ rest) i h pos =
    rw (h, drop-append_suc k ys (i ∷ []) rest z h)
      (ap (λ l. some (record { slots = l; size = size })) (ring-append 0 rest i))

-- One addition shifts the window by one item.
add_ring :
    (size : ℕ) (ys : List HistoryItem) (i : HistoryItem)
    → 0 < size
    → add (ring_of size ys) i.item_content i.item_time ≡ some (ring_of size (ys ++ i ∷ []))
add_ring size ys i h =
    let grown = length-append ys (i ∷ []) in
    elim (dec_lt (length ys) size) [
      | yes room ↦
          let free = size - length (ys ++ i ∷ []) in
          let e₁ : size - length ys ≡ suc free = omega (arith, grown) in
          let e₂ : length ys - size ≡ 0 = omega arith in
          let e₃ : length (ys ++ i ∷ []) - size ≡ 0 = omega (arith, grown) in
          rw (e₁, e₂, e₃) (add_free size free ys i)
      | no full ↦
          let k = length ys - size in
          let e₁ : size - length ys ≡ 0 = omega arith in
          let e₂ : size - length (ys ++ i ∷ []) ≡ 0 = omega (arith, grown) in
          let e₃ : length (ys ++ i ∷ []) - size ≡ suc k = omega (arith, grown) in
          rw (e₁, e₂, e₃) (add_full size k ys (drop k ys) i refl (omega (arith, length-drop k ys)))
    ]

add_all_from :
    (size : ℕ) (ys xs : List HistoryItem)
    → 0 < size
    → add_all (ring_of size ys) xs ≡ some (ring_of size (ys ++ xs))
unfolding add_all
add_all_from size ys [] h = rw append-nil refl
add_all_from size ys (x ∷ xs) h =
    rw (add_ring size ys x h, add_all)
      (add_all_from size (ys ++ x ∷ []) xs h
        ∙ ap (λ l. some (ring_of size l)) (append_assoc ys (x ∷ []) xs))

new_ring : (size : ℕ) → new_clipboard_history size ≡ ring_of size []
unfolding new_clipboard_history
new_ring size =
    let e₁ : size - 0 ≡ size = omega arith in
    let e₂ : 0 - size ≡ 0 = omega arith in rw (e₁, e₂, append-nil) refl

window_take :
    (size n : ℕ) (l : List HistoryItem)
    → length l ≤ size
    → take (if ltb size n then size else n) l ≡ take n l
window_take size n l h = elim (Bool-cases (ltb size n)) [
  | inl more ↦
      rw more (
        take_of_length-le size l h
        ∙ sym (take_of_length-le n l (omega (arith, ltb→lt size n more))))
  | inr less ↦ rw less refl
]

-- After any additions to a new history of at least one slot, GetLast returns, newest first, the n
-- oldest of the last `size` items.
pub get_last-add_all :
    (size n : ℕ) (xs : List HistoryItem)
    → 0 < size
    → (ch : ClipboardHistory) × (add_all (new_clipboard_history size) xs ≡ some ch)
      × (get_last ch n ≡ reverse (take n (last_items size xs)))
unfolding new_clipboard_history get_last
get_last-add_all size n xs h = (
  ring_of size xs,
  ap (λ r. add_all r xs) (new_ring size) ∙ add_all_from size [] xs h,
  collect-ring (if ltb size n then size else n) (size - length xs) (last_items size xs)
      ∙ ap reverse (
          window_take size n (last_items size xs)
            (omega (arith, length-drop (length xs - size) xs))),
)
