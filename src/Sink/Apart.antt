-- ===== src/Sink/Apart.antt =====
-- Sinks whose calls leave a file alone.
use logparse.Base.{
  ℕ, zero, suc, ◌≡◌, ◌≢◌, refl, ◌∙◌, sym, Bool, true, false, Bool-cases, Option-cases, inl, inr,
  none, Bytes, equal_iff, arith, if◌then◌else◌, ◌==◌,
}
use logparse.Platform.{Platform}
use logparse.Sink.{
  Sink, Outcome, reopened, append_to, must_rotate, console_sink, file_sink, rotating_sink,
  null_sink, RotatingFileSink, numbered, write, flush, file_write, file_flush, rotating_write,
  rotating_flush, rotate, rotate_loop, console_write, console_flush,
}
use logparse.Sink.Disk.{
  World, Stream, exists, rename, open_append, stream_write, stream_flush, stream_close, print,
  print_flush,
}
use logparse.Sink.Slots.{slot}

-- A sink that works on other files than `p`.
abbrev pub IsApart : Bytes → Sink → Type 0
IsApart p (file_sink f) = f.path ≢ p
IsApart p (rotating_sink r) = (i : ℕ) → slot r.path i ≢ p
IsApart p _ = Unit

module _ (p q : Bytes) (away : q ≢ p) (w : World) where
  stream_write-apart :
      (s : Stream) (buffer : Bytes) → (stream_write q s buffer w).1.files p ≡ w.files p
  unfolding stream_write
  stream_write-apart s buffer = ground (arith, equal_iff p q)

  stream_flush-apart : (s : Stream) → (stream_flush q s w).1.files p ≡ w.files p
  unfolding stream_flush
  stream_flush-apart s = ground (arith, equal_iff p q)

  stream_close-apart : (s : Stream) → (stream_close q s w).1.files p ≡ w.files p
  unfolding stream_close
  stream_close-apart s = ground (arith, equal_iff p q)

  open_append-apart : (open_append q w).1.files p ≡ w.files p
  unfolding open_append
  open_append-apart = ground (arith, equal_iff p q)

rename-apart :
    (p src dest : Bytes) (w : World) → src ≢ p → dest ≢ p → (rename src dest w).files p ≡ w.files p
unfolding rename
rename-apart p src dest w a b = ground (arith, equal_iff p src, equal_iff p dest)

moved-apart :
    (there : Bool) (p src dest : Bytes) (w : World)
    → src ≢ p
    → dest ≢ p
    → (if there then rename src dest w else w).files p ≡ w.files p
moved-apart true p src dest w a b = rename-apart p src dest w a b
moved-apart false p src dest w a b = refl

source-ne :
    (p base : Bytes) (k : ℕ)
    → ((i : ℕ) → slot base i ≢ p)
    → (if suc k == 1 then base else numbered base k) ≢ p
source-ne p base zero h = h 0
source-ne p base (suc k) h = ground (arith, h (suc k))

rotate_loop-apart :
    (p : Bytes) (n : ℕ) (base : Bytes) (w : World)
    → ((i : ℕ) → slot base i ≢ p)
    → (rotate_loop n base w).files p ≡ w.files p
unfolding rotate_loop
rotate_loop-apart p zero base w h = refl
rotate_loop-apart p (suc k) base w h =
    let src = if suc k == 1 then base else numbered base k in
    let dest = numbered base (suc k) in
    rotate_loop-apart p k base (if exists src w then rename src dest w else w) h
    ∙ moved-apart (exists src w) p src dest w (source-ne p base k h) (h (suc k))

-- A call that leaves the file alone, and the sink apart from it.
pub record LeftAlone (p : Bytes) (w : World) (o : Outcome Sink) : Type 0 where
  pub same_file : o.world.files p ≡ w.files p
  pub still_apart : IsApart p o.object

reopened-apart :
    (p : Bytes) (r : RotatingFileSink) (x : Stream × World) (w : World)
    → x.1.files p ≡ w.files p
    → let o = reopened r x in (o.world.files p ≡ w.files p) × (o.object.path ≡ r.path)
reopened-apart p r x w h = elim (Bool-cases x.0.is_open) [
  | inl e ↦ rw e (h, refl)
  | inr e ↦ rw e (h, refl)
]

rotate-apart :
    (p : Bytes) (r : RotatingFileSink) (w : World)
    → ((i : ℕ) → slot r.path i ≢ p)
    → ((rotate r w).world.files p ≡ w.files p) × ((rotate r w).object.path ≡ r.path)
unfolding rotate
rotate-apart p r w h =
    let closed = (stream_close r.path r.stream w).1 in
    let moved = rotate_loop r.max_files r.path closed in
    reopened-apart p r (open_append r.path moved) w (
      open_append-apart p r.path (h 0) moved
      ∙ rotate_loop-apart p r.max_files r.path closed h
      ∙ stream_close-apart p r.path (h 0) w r.stream)

append_to-apart :
    (p buffer : Bytes) (r : RotatingFileSink) (o : Outcome RotatingFileSink) (w : World)
    → ((i : ℕ) → slot r.path i ≢ p)
    → (o.world.files p ≡ w.files p) × (o.object.path ≡ r.path)
    → let o' = append_to buffer o in (o'.world.files p ≡ w.files p) × (o'.object.path ≡ r.path)
append_to-apart p buffer r o w h (same, path) = elim (Option-cases o.thrown) [
  | inl e ↦ rw e (
    stream_write-apart p o.object.path (λ k. h 0 (sym path ∙ k)) o.world o.object.stream buffer
        ∙ same,
    path,
  )
  | inr (x, e) ↦ rw e (same, path)
]

rotating_write-apart :
    (p buffer : Bytes) (r : RotatingFileSink) (w : World)
    → ((i : ℕ) → slot r.path i ≢ p)
    → let o = rotating_write r buffer w in (o.world.files p ≡ w.files p) × (o.object.path ≡ r.path)
unfolding rotating_write
rotating_write-apart p buffer r w h = elim (Bool-cases (must_rotate r buffer w)) [
  | inl e ↦ rw e (append_to-apart p buffer r (rotate r w) w h (rotate-apart p r w h))
  | inr e ↦ rw e (
      append_to-apart p buffer r (record { object = r; world = w; thrown = none }) w h (refl, refl))
]

-- Nothing that such a sink does touches the file.
pub write-LeftAlone :
    {Tm : Type 0} (os : Platform Tm) (p : Bytes) (s : Sink) (buffer : Bytes) (w : World)
    → IsApart p s
    → LeftAlone p w (write os s buffer w)
unfolding write console_write print file_write
write-LeftAlone os p (console_sink c) buffer w h = record { same_file = refl; still_apart = tt }
write-LeftAlone os p (file_sink f) buffer w h = record {
  same_file = stream_write-apart p f.path h w f.stream buffer;
  still_apart = h;
}
write-LeftAlone os p (rotating_sink r) buffer w h =
    let (same, path) = rotating_write-apart p buffer r w h in
    record { same_file = same; still_apart = λ i. rw path (h i) }
write-LeftAlone os p null_sink buffer w h = record { same_file = refl; still_apart = tt }

pub flush-LeftAlone : (p : Bytes) (s : Sink) (w : World) → IsApart p s → LeftAlone p w (flush s w)
unfolding flush console_flush print_flush file_flush rotating_flush
flush-LeftAlone p (console_sink c) w h = record { same_file = refl; still_apart = tt }
flush-LeftAlone p (file_sink f) w h = record {
  same_file = stream_flush-apart p f.path h w f.stream;
  still_apart = h;
}
flush-LeftAlone p (rotating_sink r) w h = record {
  same_file = stream_flush-apart p r.path (h 0) w r.stream;
  still_apart = h;
}
flush-LeftAlone p null_sink w h = record { same_file = refl; still_apart = tt }

reopened-path : (r : RotatingFileSink) (x : Stream × World) → (reopened r x).object.path ≡ r.path
reopened-path r x = elim (Bool-cases x.0.is_open) [ inl e ↦ rw e refl | inr e ↦ rw e refl ]

append_to-path :
    (buffer : Bytes) (o : Outcome RotatingFileSink)
    → (append_to buffer o).object.path ≡ o.object.path
append_to-path buffer o = elim (Option-cases o.thrown) [
  | inl e ↦ rw e refl
  | inr (x, e) ↦ rw e refl
]

-- A rotating sink stays on its file.
pub rotating_write-path :
    (r : RotatingFileSink) (buffer : Bytes) (w : World)
    → (rotating_write r buffer w).object.path ≡ r.path
unfolding rotating_write rotate
rotating_write-path r buffer w = elim (Bool-cases (must_rotate r buffer w)) [
  | inl e ↦ rw e (append_to-path buffer (rotate r w) ∙ reopened-path r _)
  | inr e ↦ rw e (append_to-path buffer (record { object = r; world = w; thrown = none }))
]
