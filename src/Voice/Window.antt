-- ===== src/Voice/Window.antt =====
-- The bounded buffer of app/services/voice/audio_buffer.py against all that was appended.
use cat_backend.Common.{
  ℕ, ◌-◌, ◌≤◌, ◌<◌, zero, suc, ◌≡◌, refl, sym, ap, ◌∙◌, List, [], ◌∷◌, ◌++◌, Option, none, some,
  length, length-append, drop, leb, flat_map, arith, inl, inr, Bool-cases,
}
use mathlib.Core.List.{append-nil, append_assoc}
use cat_backend.Voice.Vad.{frame_duration_ms}
use cat_backend.Voice.Buffer.{AudioBuffer, Frame, append, flush, max_frames, popleft}

-- The last `m` frames.
abbrev pub last : ℕ → List Frame → List Frame
last m fs = drop (length fs - m) fs

drop-append :
    (k : ℕ) (fs : List Frame) (f : Frame)
    → k ≤ length fs
    → drop k (fs ++ (f ∷ [])) ≡ drop k fs ++ (f ∷ [])
drop-append zero fs f h = refl
drop-append (suc k) [] f h = absurd (omega arith)
drop-append (suc k) (x ∷ fs) f h = drop-append k fs f (omega arith)

popleft-drop :
    (k : ℕ) (fs : List Frame) → k < length fs → popleft (drop k fs) ≡ some (drop (suc k) fs)
popleft-drop k [] h = absurd (omega arith)
popleft-drop zero (x ∷ fs) h = refl
popleft-drop (suc k) (x ∷ fs) h = popleft-drop k fs (omega arith)

popleft-some : (fs : List Frame) → 0 < length fs → (rest : List Frame) × (popleft fs ≡ some rest)
popleft-some [] h = absurd (omega arith)
popleft-some (f ∷ fs) h = (fs, refl)

length-drop : (k : ℕ) (fs : List Frame) → length (drop k fs) ≡ length fs - k
length-drop zero fs = omega arith
length-drop (suc k) [] = omega arith
length-drop (suc k) (x ∷ fs) = length-drop k fs ∙ omega arith

pub append-some :
    (f : Frame) (b : AudioBuffer) → 0 < max_frames b → (c : AudioBuffer) × (append f b ≡ some c)
unfolding append
append-some f b room = elim (Bool-cases (leb (max_frames b) (length b.frames))) [
  | inl full ↦
      let (fs, taken) = popleft-some b.frames (ground arith) in
      (record b { frames = fs ++ (f ∷ []) }, rw (full, taken) refl)
  | inr free ↦ (record b { frames = b.frames ++ (f ∷ []) }, rw free refl)
]

-- All of a list appended in turn.
abbrev pub append_all : List Frame → AudioBuffer → Option AudioBuffer
append_all [] b = some b
append_all (f ∷ fs) b = elim (append f b) [ none ↦ none | some c ↦ append_all fs c ]

abbrev holding : List Frame → AudioBuffer → AudioBuffer
holding seen b = record b { frames = last (max_frames b) seen }

append-last :
    (f : Frame) (seen : List Frame) (b : AudioBuffer)
    → 0 < max_frames b
    → append f (holding seen b) ≡ some (holding (seen ++ (f ∷ [])) b)
unfolding append
append-last f seen b room =
    let m = max_frames b in
    let more : length (seen ++ (f ∷ [])) ≡ suc (length seen) =
      length-append seen (f ∷ []) ∙ omega arith in
    let held = length-drop (length seen - m) seen in
    elim (Bool-cases (leb m (length (last m seen)))) [
      | inl full ↦
          let next : length (seen ++ (f ∷ [])) - m ≡ suc (length seen - m) = ground arith in
          rw (full, popleft-drop (length seen - m) seen (ground arith))
            (ap (λ fs. some (record b { frames = fs }))
              (sym (
                ap (λ k. drop k (seen ++ (f ∷ []))) next
                ∙ drop-append (suc (length seen - m)) seen f (ground arith))))
      | inr free ↦
          let next : length (seen ++ (f ∷ [])) - m ≡ length seen - m = ground arith in
          rw free (
            ap (λ fs. some (record b { frames = fs }))
              (sym (
                ap (λ k. drop k (seen ++ (f ∷ []))) next
                ∙ drop-append (length seen - m) seen f (ground arith))))
    ]

append_all-holding :
    (fs seen : List Frame) (b : AudioBuffer)
    → 0 < max_frames b
    → append_all fs (holding seen b) ≡ some (holding (seen ++ fs) b)
append_all-holding [] seen b room = ap (λ xs. some (holding xs b)) (sym (append-nil seen))
append_all-holding (f ∷ fs) seen b room =
    rw (append_all, append-last f seen b room)
      (append_all-holding fs (seen ++ (f ∷ [])) b room
        ∙ ap (λ xs. some (holding xs b)) (append_assoc seen (f ∷ []) fs))

drop-nil : (k : ℕ) → drop {A = Frame} k [] ≡ []
drop-nil zero = refl
drop-nil (suc k) = refl

abbrev pub fresh : ℕ → AudioBuffer
fresh duration = record { max_duration_ms = duration; frames = [] }

-- With room for a frame, a new buffer takes all frames of a list and holds the last of them that fit;
-- a flush returns their bytes in order and leaves it empty.
pub append_all-flush :
    (fs : List Frame) (duration : ℕ)
    → frame_duration_ms ≤ duration
    → (c : AudioBuffer) × (append_all fs (fresh duration) ≡ some c)
      × (c.frames ≡ last (max_frames (fresh duration)) fs)
      × (length c.frames ≤ max_frames (fresh duration))
      × (flush c ≡ (flat_map (λ f. f) (last (max_frames (fresh duration)) fs), fresh duration))
unfolding flush
append_all-flush fs duration room =
    let b = fresh duration in
    let start : holding [] b ≡ b =
      ap (λ (fs : List Frame). record b { frames = fs }) (drop-nil (0 - max_frames b)) in
    (
      holding fs b,
      ap (append_all fs) (sym start) ∙ append_all-holding fs [] b (omega arith),
      refl,
      omega (arith, length-drop (length fs - max_frames b) fs),
      refl,
    )
