-- ===== src/Sink/Steady.antt =====
-- Sinks that never throw.
use logparse.Base.{
  ℕ, zero, suc, ◌≡◌, refl, subst, none, some, List, [], ◌∷◌, Bytes, All, get_elem?, set,
}
use logparse.Platform.{Platform}
use logparse.Sink.{
  Sink, console_sink, file_sink, rotating_sink, null_sink, write, flush, file_write, file_flush,
}
use logparse.Sink.Disk.{World}

-- A sink that does not rotate.
abbrev pub IsSteady : Sink → Type 0
IsSteady (rotating_sink r) = ⊥
IsSteady _ = Unit

pub All-at :
    (P : Sink → Type 0) (xs : List Sink) (j : ℕ) {s : Sink}
    → All P xs
    → get_elem? xs j ≡ some s
    → P s
All-at P [] j h e = cc e
All-at P (x ∷ xs) zero {s} (p, h) e = subst P (let i : x ≡ s = cc e in i) p
All-at P (x ∷ xs) (suc j) (p, h) e = All-at P xs j h e

pub All-set :
    (P : Sink → Type 0) (xs : List Sink) (j : ℕ) {v : Sink} → All P xs → P v → All P (set xs j v)
All-set P [] j h q = tt
All-set P (x ∷ xs) zero (p, h) q = (q, h)
All-set P (x ∷ xs) (suc j) (p, h) q = (p, All-set P xs j h q)

pub write-IsSteady :
    {Tm : Type 0} (os : Platform Tm) (s : Sink) (line : Bytes) (w : World)
    → IsSteady s
    → ((write os s line w).thrown ≡ none) × IsSteady (write os s line w).object
unfolding write file_write
write-IsSteady os (console_sink c) line w h = (refl, tt)
write-IsSteady os (file_sink f) line w h = (refl, tt)
write-IsSteady os (rotating_sink r) line w h = absurd h
write-IsSteady os null_sink line w h = (refl, tt)

pub flush-IsSteady : (s : Sink) (w : World) → IsSteady s → IsSteady (flush s w).object
unfolding flush file_flush
flush-IsSteady (console_sink c) w h = tt
flush-IsSteady (file_sink f) w h = tt
flush-IsSteady (rotating_sink r) w h = absurd h
flush-IsSteady null_sink w h = tt
