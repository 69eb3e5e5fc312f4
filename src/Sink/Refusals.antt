-- ===== src/Sink/Refusals.antt =====
-- No call of a sink changes what the environment refuses.
use logparse.Base.{
  ℕ, zero, suc, ◌≡◌, refl, ◌∙◌, Bool, true, false, Bool-cases, Option-cases, inl, inr, none, Bytes,
  if◌then◌else◌, ◌==◌, arith,
}
use logparse.Platform.{Platform}
use logparse.Sink.{
  Sink, Outcome, reopened, append_to, must_rotate, console_sink, file_sink, rotating_sink,
  null_sink, RotatingFileSink, numbered, write, flush, file_write, file_flush, rotating_write,
  rotating_flush, rotate, rotate_loop, console_write, console_flush,
}
use logparse.Sink.Disk.{
  World, Stream, exists, rename, open_append, stream_write, stream_flush, stream_close, print,
  print_flush,
}

abbrev pub SameRefusals : World → World → Type 0
SameRefusals w w' = (w'.open_refused ≡ w.open_refused) × (w'.rename_refused ≡ w.rename_refused)

then_same : (u v w : World) → SameRefusals u v → SameRefusals v w → SameRefusals u w
then_same u v w (a, b) (c, d) = (c ∙ a, d ∙ b)

module _ (p : Bytes) (s : Stream) (w : World) where
  stream_write-same : (buffer : Bytes) → SameRefusals w (stream_write p s buffer w).1
  unfolding stream_write
  stream_write-same buffer = ground arith

  stream_flush-same : SameRefusals w (stream_flush p s w).1
  unfolding stream_flush
  stream_flush-same = ground arith

  stream_close-same : SameRefusals w (stream_close p s w).1
  unfolding stream_close
  stream_close-same = ground arith

open_append-same : (p : Bytes) (w : World) → SameRefusals w (open_append p w).1
unfolding open_append
open_append-same p w = ground arith

moved-same :
    (there : Bool) (src dest : Bytes) (w : World)
    → SameRefusals w (if there then rename src dest w else w)
unfolding rename
moved-same true src dest w = ground arith
moved-same false src dest w = (refl, refl)

rotate_loop-same : (n : ℕ) (base : Bytes) (w : World) → SameRefusals w (rotate_loop n base w)
unfolding rotate_loop
rotate_loop-same zero base w = (refl, refl)
rotate_loop-same (suc k) base w =
    let src = if suc k == 1 then base else numbered base k in
    let dest = numbered base (suc k) in
    let w' = if exists src w then rename src dest w else w in
    then_same w w' (rotate_loop k base w') (moved-same (exists src w) src dest w)
      (rotate_loop-same k base w')

reopened-same : (r : RotatingFileSink) (x : Stream × World) → SameRefusals x.1 (reopened r x).world
reopened-same r x = elim (Bool-cases x.0.is_open) [
  | inl e ↦ rw e (refl, refl)
  | inr e ↦ rw e (refl, refl)
]

rotate-same : (r : RotatingFileSink) (w : World) → SameRefusals w (rotate r w).world
unfolding rotate
rotate-same r w =
    let closed = (stream_close r.path r.stream w).1 in
    let moved = rotate_loop r.max_files r.path closed in
    let made = open_append r.path moved in
    then_same w closed (reopened r made).world (stream_close-same r.path r.stream w) (
      then_same closed moved (reopened r made).world (rotate_loop-same r.max_files r.path closed) (
        then_same moved made.1 (reopened r made).world (open_append-same r.path moved)
          (reopened-same r made)))

append_to-same :
    (buffer : Bytes) (o : Outcome RotatingFileSink)
    → SameRefusals o.world (append_to buffer o).world
append_to-same buffer o = elim (Option-cases o.thrown) [
  | inl e ↦ rw e (stream_write-same o.object.path o.object.stream o.world buffer)
  | inr (x, e) ↦ rw e (refl, refl)
]

rotating_write-same :
    (r : RotatingFileSink) (buffer : Bytes) (w : World)
    → SameRefusals w (rotating_write r buffer w).world
unfolding rotating_write
rotating_write-same r buffer w = elim (Bool-cases (must_rotate r buffer w)) [
  | inl e ↦ rw e (
      then_same w (rotate r w).world (append_to buffer (rotate r w)).world (rotate-same r w)
        (append_to-same buffer (rotate r w)))
  | inr e ↦ rw e (append_to-same buffer (record { object = r; world = w; thrown = none }))
]

pub write-SameRefusals :
    {Tm : Type 0} (os : Platform Tm) (s : Sink) (buffer : Bytes) (w : World)
    → SameRefusals w (write os s buffer w).world
unfolding write console_write print file_write
write-SameRefusals os (console_sink c) buffer w = (refl, refl)
write-SameRefusals os (file_sink f) buffer w = stream_write-same f.path f.stream w buffer
write-SameRefusals os (rotating_sink r) buffer w = rotating_write-same r buffer w
write-SameRefusals os null_sink buffer w = (refl, refl)

pub flush-SameRefusals : (s : Sink) (w : World) → SameRefusals w (flush s w).world
unfolding flush console_flush print_flush file_flush rotating_flush
flush-SameRefusals (console_sink c) w = (refl, refl)
flush-SameRefusals (file_sink f) w = stream_flush-same f.path f.stream w
flush-SameRefusals (rotating_sink r) w = stream_flush-same r.path r.stream w
flush-SameRefusals null_sink w = (refl, refl)
