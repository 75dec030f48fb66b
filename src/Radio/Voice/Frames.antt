-- ===== src/Radio/Voice/Frames.antt =====
-- pkg/simpleradio/voice.go: the frames of a transmission.
use skyeye.Common.{
  ℕ, zero, suc, ◌-◌, ◌≡◌, ◌≤◌, ◌<◌, refl, sym, ap, ◌∙◌, inl, inr, false, List, [], ◌∷◌, ◌++◌, arith,
  leb, length, take, drop, replicate, All, Bool-cases, leb→le, length-append, length-replicate,
  take-all, drop-all, take-append-drop, length-take, length-drop,
}
use mathlib.Core.List.{append-nil, append_assoc}
use skyeye.Radio.Voice.{Samples, frame_size, frame_of, frames_from, frames}

abbrev pub joined : List Samples → Samples
joined [] = []
joined (f ∷ fs) = f ++ joined fs

frame_of-last :
    (audio : Samples)
    → length audio ≤ frame_size
    → frame_of audio ≡ audio ++ replicate (frame_size - length audio) 0
unfolding frame_of
frame_of-last audio h = rw (take-all frame_size audio h) refl

frame_of-full :
    (audio : Samples) → frame_size ≤ length audio → frame_of audio ≡ take frame_size audio
unfolding frame_of
frame_of-full audio h =
    ap (λ n. take frame_size audio ++ replicate (frame_size - n) 0) (length-take frame_size audio h)
    ∙ append-nil (take frame_size audio)

frames_from_nil : (fuel : ℕ) → frames_from fuel [] ≡ []
unfolding frames_from
frames_from_nil zero = refl
frames_from_nil (suc fuel) = refl

-- The frames put together are the audio and less than a frame of silence.
abbrev IsFilled : Samples → List Samples → Type 0
IsFilled audio fs =
    (k : ℕ) × (k < frame_size)
    × (joined fs ≡ audio ++ replicate k 0)
    × All (λ f. length f ≡ frame_size) fs

not-leb→le : (a b : ℕ) → leb a b ≡ false → b ≤ a
not-leb→le a b h = ground (arith, h)

frame_of-IsFilled :
    (audio : Samples) (fuel : ℕ)
    → 0 < length audio
    → let rest = drop frame_size audio in
      IsFilled rest (frames_from fuel rest)
      → IsFilled audio (frame_of audio ∷ frames_from fuel rest)
frame_of-IsFilled audio fuel some_ v = elim (Bool-cases (leb (length audio) frame_size)) [
  | inl last ↦
      let short = leb→le (length audio) frame_size last in
      rw (drop-all frame_size audio short, frames_from_nil fuel)
        (
          frame_size - length audio,
          omega (arith, some_),
          append-nil (frame_of audio) ∙ frame_of-last audio short,
          (
            ap length (frame_of-last audio short)
                ∙ length-append audio (replicate (frame_size - length audio) 0)
                ∙ omega (arith, short, length-replicate {A = ℕ} (frame_size - length audio) 0),
            tt,
          ),
        )
  | inr more ↦
      let full = not-leb→le (length audio) frame_size more in
      let (k, small, same, sizes) = v in
      (
        k,
        small,
        ap (λ t. t ++ joined (frames_from fuel (drop frame_size audio))) (frame_of-full audio full)
            ∙ ap (λ t. take frame_size audio ++ t) same
            ∙ sym (append_assoc (take frame_size audio) (drop frame_size audio) (replicate k 0))
            ∙ ap (λ t. t ++ replicate k 0) (take-append-drop frame_size audio),
        (ap length (frame_of-full audio full) ∙ length-take frame_size audio full, sizes),
      )
]

frames_from-IsFilled :
    (fuel : ℕ) (audio : Samples) → length audio ≤ fuel → IsFilled audio (frames_from fuel audio)
unfolding frames_from
frames_from-IsFilled zero [] h = (0, omega arith, refl, tt)
frames_from-IsFilled zero (s ∷ audio) h = absurd (omega (arith, h))
frames_from-IsFilled (suc fuel) [] h = (0, omega arith, refl, tt)
frames_from-IsFilled (suc fuel) (s ∷ audio) h =
    let shorter : length (drop frame_size (s ∷ audio)) ≤ fuel =
      omega (arith, h, length-drop frame_size (s ∷ audio)) in
    frame_of-IsFilled (s ∷ audio) fuel (omega arith)
      (frames_from-IsFilled fuel (drop frame_size (s ∷ audio)) shorter)

-- The frames of a transmission, put together, are its audio and then silence, less than a frame of
-- it; each is of the size of a frame, and the loop takes no more turns than the audio has samples.
pub frames-joined :
    (audio : Samples)
    → (k : ℕ) × (k < frame_size)
      × (joined (frames audio) ≡ audio ++ replicate k 0)
      × All (λ f. length f ≡ frame_size) (frames audio)
frames-joined audio = frames_from-IsFilled (length audio) audio (omega arith)
