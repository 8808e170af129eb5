-- ===== src/Frames/Tests.antt =====
-- The bitmap of a machine with 64 frames, the first three of them taken.
use mya_xos.Base.{ℕ, ◌*◌, ◌/◌, ◌<◌, ◌≡◌, true, false, ◌==◌, if◌then◌else◌, ◌⊎◌}
use mya_xos.Frames.{Frames, first_frame, no_frame}
use mya_xos.Frames.Bitmap.{is_taken}
use mya_xos.Frames.First.{first_frame-Least}

abbrev three : Frames
three = record { words = λ i. if i == 0 then 7 else 0; nframes = 64 }

first_frame-Least_example :
    ((f : ℕ) × (first_frame three ≡ f)
      × (f < three.nframes / 32 * 32)
      × (is_taken three f ≡ false)
      × ((g : ℕ) → g < f → is_taken three g ≡ true))
    ⊎ ((first_frame three ≡ no_frame)
        × ((g : ℕ) → g < three.nframes / 32 * 32 → is_taken three g ≡ true))
first_frame-Least_example = first_frame-Least three
