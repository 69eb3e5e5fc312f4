-- ===== src/Sink/Disk.antt =====
-- The files, streams and standard output that the sinks work on. The environment decides which
-- calls are refused and how soon a stream hands its bytes over.
use logparse.Base.{
  ℕ, ◌≡◌, refl, ap, ◌∙◌, sym, Bool, true, false, [], ◌++◌, Option, none, some, Bytes, equal,
  equal_iff, if◌then◌else◌, or_else, take, drop, take-append-drop, append_assoc,
}

pub record World : Type 0 where
  -- the bytes of each file that exists
  pub files : Bytes → Option Bytes
  -- refusals of the operating system
  pub open_refused : Bytes → Bool
  pub rename_refused : Bytes → Bytes → Bool
  pub directory_refused : Bytes → Bool
  -- how many of the bytes that wait in a stream and of those just given to it, in this order, the
  -- stream writes through at once
  pub spill : Bytes → Bytes → ℕ
  -- standard output: what is written, and what waits in its buffer
  pub printed : Bytes
  pub print_pending : Bytes

-- A `std::ofstream`; `pending` are the bytes that wait in its buffer.
pub record Stream : Type 0 where
  pub is_open : Bool
  pub pending : Bytes

abbrev pub closed_stream : Stream
closed_stream = record { is_open = false; pending = [] }

abbrev pub update : (Bytes → Option Bytes) → Bytes → Option Bytes → Bytes → Option Bytes
update f p v q = if equal q p then v else f q

abbrev pub content : Bytes → World → Bytes
content p w = or_else (w.files p) []

-- `std::filesystem::exists`
abbrev pub exists : Bytes → World → Bool
exists p w = elim (w.files p) [ none ↦ false | some c ↦ true ]

-- `std::filesystem::rename` with an error code that the caller drops.
unfoldable pub rename : Bytes → Bytes → World → World
rename src dest w =
    if w.rename_refused src dest
    then w
    else record w { files = update (update w.files src none) dest (w.files src) }

-- `open(path, std::ios::app | std::ios::binary)`
unfoldable pub open_append : Bytes → World → Stream × World
open_append p w = if w.open_refused p then (closed_stream, w) else (
  record { is_open = true; pending = [] },
  record w { files = update w.files p (some (content p w)) },
)

abbrev put_bytes : Bytes → Bytes → World → World
put_bytes p bytes w = record w { files = update w.files p (some (content p w ++ bytes)) }

unfoldable pub stream_write : Bytes → Stream → Bytes → World → Stream × World
stream_write p s buffer w =
    if s.is_open
    then (
      record s { pending = drop (w.spill s.pending buffer) (s.pending ++ buffer) },
      put_bytes p (take (w.spill s.pending buffer) (s.pending ++ buffer)) w,
    )
    else (s, w)

unfoldable pub stream_flush : Bytes → Stream → World → Stream × World
stream_flush p s w =
    if s.is_open then (record s { pending = [] }, put_bytes p s.pending w) else (s, w)

unfoldable pub stream_close : Bytes → Stream → World → Stream × World
stream_close p s w = if s.is_open then (closed_stream, put_bytes p s.pending w) else (s, w)

unfoldable pub print : Bytes → World → World
print text w =
    let all = w.print_pending ++ text in
    record w {
      printed = w.printed ++ take (w.spill w.print_pending text) all;
      print_pending = drop (w.spill w.print_pending text) all;
    }

unfoldable pub print_flush : World → World
print_flush w = record w { printed = w.printed ++ w.print_pending; print_pending = [] }

-- What was handed to a stream so far: the bytes in its file, and those that wait.
abbrev pub handed_over : Bytes → Stream × World → Bytes
handed_over p t = content p t.1 ++ t.0.pending

equal_refl : (p : Bytes) → equal p p ≡ true
equal_refl p = (equal_iff p p).1 refl

-- A write to an open stream loses nothing, however much of it waits.
pub handed_over-stream_write :
    (p : Bytes) (s : Stream) (buffer : Bytes) (w : World)
    → s.is_open ≡ true
    → handed_over p (stream_write p s buffer w) ≡ handed_over p (s, w) ++ buffer
unfolding stream_write
handed_over-stream_write p s buffer w e =
    let all = s.pending ++ buffer in
    let n = w.spill s.pending buffer in
    rw (e, equal_refl p)
      (append_assoc (content p w) (take n all) (drop n all)
        ∙ ap (λ l. content p w ++ l) (take-append-drop n all)
        ∙ sym (append_assoc (content p w) s.pending buffer))

pub handed_over-stream_flush :
    (p : Bytes) (s : Stream) (w : World)
    → s.is_open ≡ true
    → (content p (stream_flush p s w).1 ≡ handed_over p (s, w))
      × ((stream_flush p s w).0.pending ≡ [])
unfolding stream_flush
handed_over-stream_flush p s w e = rw (e, equal_refl p) (refl, refl)
