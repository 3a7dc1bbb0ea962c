-- ===== src/Transcript/Numbering.antt =====
-- The sequence numbers that app/services/transcript_manager.py gives.
use cat_backend.Common.{
  ℕ, ◌+◌, suc, ◌≡◌, refl, ◌∙◌, subst, false, List, [], ◌∷◌, ◌++◌, ◌⊎◌, length, length-append, All,
  arith,
}
use cat_backend.Common.Eq.{◌==◌, ℕ-Eq, String-Eq}
use cat_backend.Transcript.Manager.{
  Entry, Recorder, of_session, after_max, get_next_sequence_number, larger,
}

-- Entries with the sequence numbers `n`, `n + 1` and so on.
abbrev pub CountsFrom : ℕ → List Entry → Type 0
CountsFrom n [] = Unit
CountsFrom n (e ∷ es) = (e.sequence_number ≡ n) × CountsFrom (suc n) es

pub CountsFrom-append :
    (n : ℕ) (xs : List Entry) (e : Entry)
    → CountsFrom n xs
    → e.sequence_number ≡ n + length xs
    → CountsFrom n (xs ++ (e ∷ []))
CountsFrom-append n [] e h k = (k ∙ omega arith, tt)
CountsFrom-append n (x ∷ xs) e (here, h) k =
    (here, CountsFrom-append (suc n) xs e h (k ∙ omega arith))

pub CountsFrom-prefix : (n : ℕ) (xs ys : List Entry) → CountsFrom n (xs ++ ys) → CountsFrom n xs
CountsFrom-prefix n [] ys h = tt
CountsFrom-prefix n (x ∷ xs) ys (here, h) = (here, CountsFrom-prefix (suc n) xs ys h)

CountsFrom-suffix :
    (n : ℕ) (xs ys : List Entry) → CountsFrom n (xs ++ ys) → CountsFrom (n + length xs) ys
CountsFrom-suffix n [] ys h = subst (λ m. CountsFrom m ys) (omega arith) h
CountsFrom-suffix n (x ∷ xs) ys (here, h) =
    subst (λ m. CountsFrom m ys) (omega arith) (CountsFrom-suffix (suc n) xs ys h)

-- The largest number is that of the last entry.
after_max_lem :
    (n : ℕ) (x : Entry) (xs : List Entry)
    → CountsFrom n (x ∷ xs)
    → after_max (x ∷ xs) ≡ n + length (x ∷ xs)
after_max_lem n x [] (here, h) = ground arith
after_max_lem n x (y ∷ xs) (here, h) = ground (arith, after_max_lem (suc n) y xs h)

-- What is recorded of a session, in the order of recording.
abbrev pub recorded : ℕ → Recorder → List Entry
recorded session r = of_session session r.rows ++ r.buffer session

-- Of one session: the numbers of its rows and then of its buffer are 0, 1 and so on, and the counter,
-- when it is set, is the next one.
pub record Numbered (session : ℕ) (rows buffer : List Entry) (counter : ℕ) : Type 0 where
  pub counts : CountsFrom 0 (rows ++ buffer)
  pub owned : All (λ e. e.session_id ≡ session) buffer
  pub next : (counter ≡ 0) ⊎ (counter ≡ length (rows ++ buffer))

abbrev pub IsNumbered : ℕ → Recorder → Type 0
IsNumbered session r =
    Numbered session (of_session session r.rows) (r.buffer session) (r.sequence_counters session)

larger_lem :
    (xs ys : List Entry)
    → CountsFrom 0 (xs ++ ys)
    → larger (after_max xs) (after_max ys) ≡ length (xs ++ ys)
larger_lem [] [] h = refl
larger_lem [] (y ∷ ys) h = ground (arith, after_max_lem 0 y ys h)
larger_lem (x ∷ xs) [] h =
    ground
      (arith, after_max_lem 0 x xs (CountsFrom-prefix 0 (x ∷ xs) [] h), length-append (x ∷ xs) [])
larger_lem (x ∷ xs) (y ∷ ys) h =
    let left = after_max_lem 0 x xs (CountsFrom-prefix 0 (x ∷ xs) (y ∷ ys) h) in
    let right = after_max_lem (length (x ∷ xs)) y ys (
      subst (λ n. CountsFrom n (y ∷ ys)) (omega arith) (CountsFrom-suffix 0 (x ∷ xs) (y ∷ ys) h)) in
    grind (arith, left, right, length-append (x ∷ xs) (y ∷ ys))

pub next_lem :
    (session : ℕ) (r : Recorder)
    → IsNumbered session r
    → (get_next_sequence_number session r).0 ≡ length (recorded session r)
unfolding get_next_sequence_number
next_lem session r h =
    ground (arith, larger_lem (of_session session r.rows) (r.buffer session) h.counts, h.next)

pub of_session-append :
    (t : ℕ) (xs ys : List Entry) → of_session t (xs ++ ys) ≡ of_session t xs ++ of_session t ys
of_session-append t [] ys = refl
of_session-append t (x ∷ xs) ys = ground (arith, of_session-append t xs ys)

pub of_session-own :
    (t : ℕ) (xs : List Entry) → All (λ e. e.session_id ≡ t) xs → of_session t xs ≡ xs
of_session-own t [] h = refl
of_session-own t (x ∷ xs) (here, h) = ground (arith, of_session-own t xs h)

pub of_session-other :
    (s t : ℕ) (xs : List Entry)
    → (s == t) ≡ false
    → All (λ e. e.session_id ≡ s) xs
    → of_session t xs ≡ []
of_session-other s t [] d h = refl
of_session-other s t (x ∷ xs) d (here, h) = ground (arith, of_session-other s t xs d h)
