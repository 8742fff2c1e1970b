-- ===== src/Collector/Answers.antt =====
-- What the clients of core/collector.c are sent.
use syswatcher.Base.{
  All-append, length-take, ℕ, zero, suc, ◌+◌, ◌-◌, ◌<◌, ◌≤◌, ◌≡◌, refl, ap, ◌∙◌, some, [], ◌∷◌,
  ◌++◌, ◌==◌, length, length-append, take, drop, arith, All, Option-cases, Bool-cases, inl, inr,
}
use syswatcher.Channel.{Str}
use syswatcher.Collector.{
  strlen, print_over, Service, cleared, init_service, publish, measure, send, IsText, Step, Reaches,
}

strlen-text : (text rest : Str) → IsText text → strlen (text ++ 0 ∷ rest) ≡ some (length text)
unfolding strlen
strlen-text [] rest is = refl
strlen-text (c ∷ text) rest (byte, is) = let ih = strlen-text text rest is in ground arith

length-drop : (n : ℕ) (s : Str) → length (drop n s) ≡ length s - n
length-drop zero s = omega arith
length-drop (suc n) [] = omega arith
length-drop (suc n) (c ∷ s) = omega (arith, length-drop n s)

length-print_over :
    (text buffer : Str)
    → length text < length buffer
    → length (print_over text buffer) ≡ length buffer
unfolding print_over
length-print_over text buffer fits = omega (
  arith,
  length-append text (0 ∷ drop (length text + 1) buffer),
  length-drop (length text + 1) buffer,
)

-- The array keeps its size and a NUL in it, a measured length is within it, and so was every answer.
pub record IsServed (size : ℕ) (s : Service) : Type 0 where
  pub long : length s.buffer ≡ size
  pub ends : (n : ℕ) × (strlen s.buffer ≡ some n)
  pub within : (n : ℕ) → s.measured ≡ some n → n < size
  pub answers : All (λ a. length a < size) s.sent

strlen-within : (s : Str) (n : ℕ) → strlen s ≡ some n → n < length s
unfolding strlen
strlen-within [] n e = absurd (ground arith)
strlen-within (c ∷ s) n e = elim (Bool-cases (c == 0)) [
  | inl nul ↦ let same : n ≡ 0 = ground arith in omega (arith, same)
  | inr byte ↦ elim (Option-cases (strlen s)) [
    | inl endless ↦ absurd (ground arith)
    | inr (m, rest) ↦
        let ih = strlen-within s m rest in
        let same : n ≡ suc m = ground arith in omega (arith, ih, same)
  ]
]

strlen-print_over :
    (text buffer : Str) → IsText text → strlen (print_over text buffer) ≡ some (length text)
unfolding print_over
strlen-print_over text buffer is = strlen-text text (drop (length text + 1) buffer) is

length-cleared : (n : ℕ) → length (cleared n) ≡ n
unfolding cleared
length-cleared zero = refl
length-cleared (suc n) = ap suc (length-cleared n)

init-IsServed : (size : ℕ) → 0 < size → IsServed size (init_service size)
unfolding init_service
init-IsServed size some_ = record {
  long = length-cleared size;
  ends = first_nul size some_;
  within = λ n e. absurd (ground arith);
  answers = tt;
}
  where
    first_nul : (k : ℕ) → 0 < k → (n : ℕ) × (strlen (cleared k) ≡ some n)
    first_nul zero h = absurd (omega arith)
    first_nul (suc k) h = (0, unfold strlen in unfold cleared in refl)

length-take-le : (n : ℕ) (s : Str) → length (take n s) ≤ length s
length-take-le zero s = omega arith
length-take-le (suc n) [] = omega arith
length-take-le (suc n) (c ∷ s) = omega (arith, length-take-le n s)

Step-IsServed : (size : ℕ) (s s' : Service) → IsServed size s → Step size s s' → IsServed size s'
unfolding publish measure send
Step-IsServed size s s' h (Step.published _ text is fits) = record {
  long = length-print_over text s.buffer (omega (arith, h.long)) ∙ h.long;
  ends = (length text, strlen-print_over text s.buffer is);
  within = h.within;
  answers = h.answers;
}
Step-IsServed size s s' h (Step.accepted _ _ free e) =
    let (n, at) = h.ends in
    let lt : n < size = omega (arith, strlen-within s.buffer n at, h.long) in
    let same : s' ≡ record { buffer = s.buffer; measured = some n; sent = s.sent } = ground arith in
    rw same (record {
      long = h.long;
      ends = h.ends;
      within = λ m measured. let eq : m ≡ n = ground arith in omega (arith, eq, lt);
      answers = h.answers;
    })
Step-IsServed size s s' h (Step.answered _ n arrived e) = record {
  long = h.long;
  ends = h.ends;
  within = λ m none_. absurd (ground arith);
  answers =
      All-append (λ (a : Str). length a < size) s.sent (take arrived (take n s.buffer) ∷ [])
        h.answers
        (
          omega (
            arith,
            length-take n s.buffer,
            length-take-le arrived (take n s.buffer),
            h.within n e,
          ),
          tt,
        );
}

-- Whatever texts list_data prints, if each fits the array, and wherever it does so between the
-- thread's strlen and write: the array keeps its size and holds a NUL, so that the next strlen
-- returns, and neither the measured length nor an answer goes past the array.
pub Reaches-IsServed : (size : ℕ) (s : Service) → 0 < size → Reaches size s → IsServed size s
Reaches-IsServed size s some_ (Reaches.start) = init-IsServed size some_
Reaches-IsServed size s some_ (Reaches.next before _ reaches step) =
    Step-IsServed size before s (Reaches-IsServed size before some_ reaches) step
