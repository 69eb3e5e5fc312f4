-- ===== src/Sink/Manager.antt =====
-- `SinkManager` of src/sink.cpp: which of its sinks a call reaches.
use logparse.Base.{◌≡◌, refl, ap, ◌∙◌, List, [], ◌∷◌, ◌++◌, Option, none, some, Bytes, All}
use logparse.Platform.{Platform}
use logparse.Sink.{
  Sink, SinkError, Outcome, console_sink, file_sink, rotating_sink, null_sink, write, write_all,
  file_write,
}
use logparse.Sink.Disk.{World}

-- A sink whose `write` cannot throw.
abbrev pub IsQuiet : Sink → Type 0
IsQuiet (rotating_sink r) = ⊥
IsQuiet _ = Unit

module _ {Tm : Type 0} (os : Platform Tm) (buffer : Bytes) where
  -- What becomes of further sinks after some have been written to.
  abbrev pub followed : Outcome (List Sink) → List Sink → Outcome (List Sink)
  followed o ys = elim o.thrown [
    | some e ↦ record { object = o.object ++ ys; world = o.world; thrown = some e }
    | none ↦
        let rest = write_all os ys buffer o.world in
        record { object = o.object ++ rest.object; world = rest.world; thrown = rest.thrown }
  ]

  abbrev pub then_all : Outcome Sink → List Sink → Outcome (List Sink)
  then_all o ss = elim o.thrown [
    | some e ↦ record { object = o.object ∷ ss; world = o.world; thrown = some e }
    | none ↦
        let rest = write_all os ss buffer o.world in
        record { object = o.object ∷ rest.object; world = rest.world; thrown = rest.thrown }
  ]

  abbrev behind : Sink → Outcome (List Sink) → Outcome (List Sink)
  behind x o = record { object = x ∷ o.object; world = o.world; thrown = o.thrown }

  followed-behind :
      (x : Sink) (objects : List Sink) (w : World) (thrown : Option SinkError) (ys : List Sink)
      → behind x (followed (record { object = objects; world = w; thrown = thrown }) ys)
        ≡ followed (record { object = x ∷ objects; world = w; thrown = thrown }) ys
  followed-behind x objects w none ys = refl
  followed-behind x objects w (some e) ys = refl

  followed-then_all :
      (thrown : Option SinkError) (x : Sink) (w : World) (xs ys : List Sink)
      → write_all os (xs ++ ys) buffer w ≡ followed (write_all os xs buffer w) ys
      → then_all (record { object = x; world = w; thrown = thrown }) (xs ++ ys)
        ≡ followed (then_all (record { object = x; world = w; thrown = thrown }) xs) ys
  followed-then_all (some e) x w xs ys h = refl
  followed-then_all none x w xs ys h =
      let o = write_all os xs buffer w in
      ap (behind x) h ∙ followed-behind x o.object o.world o.thrown ys

  -- The sinks behind some others are written to if none of those threw; what one throws leaves the
  -- sinks behind it untouched.
  pub write_all-append :
      (xs ys : List Sink) (w : World)
      → write_all os (xs ++ ys) buffer w ≡ followed (write_all os xs buffer w) ys
  unfolding write_all
  write_all-append [] ys w = refl
  write_all-append (x ∷ xs) ys w =
      let o = write os x buffer w in
      followed-then_all o.thrown o.object o.world xs ys (write_all-append xs ys o.world)

  write-IsQuiet : (s : Sink) (w : World) → IsQuiet s → (write os s buffer w).thrown ≡ none
  unfolding write file_write
  write-IsQuiet (console_sink c) w h = refl
  write-IsQuiet (file_sink f) w h = refl
  write-IsQuiet (rotating_sink r) w h = absurd h
  write-IsQuiet null_sink w h = refl

  thrown-then_all :
      (o : Outcome Sink) (ss : List Sink)
      → o.thrown ≡ none
      → (write_all os ss buffer o.world).thrown ≡ none
      → (then_all o ss).thrown ≡ none
  thrown-then_all o ss e h = rw e h

  -- A call on sinks of which none rotates throws nothing.
  pub write_all-IsQuiet :
      (ss : List Sink) (w : World) → All IsQuiet ss → (write_all os ss buffer w).thrown ≡ none
  unfolding write_all
  write_all-IsQuiet [] w h = refl
  write_all-IsQuiet (s ∷ ss) w h =
      let o = write os s buffer w in
      thrown-then_all o ss (write-IsQuiet s w h.0) (write_all-IsQuiet ss o.world h.1)
