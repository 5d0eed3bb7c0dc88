-- ===== src/Bridge/Loop.antt =====
-- The event loop of the bridge, apart from the rest.
use paum_io_t.Common.{◌^◌, lt→leb_false}
use paum_io_t.Common.{
  ℕ, zero, suc, ◌+◌, ◌*◌, ◌/◌, ◌%◌, ◌<◌, ◌≡◌, refl, sym, ap, ap₂, ◌∙◌, arith, true, false, Bool,
  List, [], ◌∷◌, ◌++◌, append_assoc, append-nil, ◌==◌, if◌then◌else◌, Bool-cases, inl, inr,
}
use paum_io_t.World.{ok}
use paum_io_t.Bridge.{Event, sleeps, reports, event_loop}

-- The status of a second, if it is due.
abbrev due : ℕ → List Event
due s = if s % 30 == 0 then reports s ∷ [] else []

-- What is done in `n` seconds after the second `start`.
unfoldable pub ticks : ℕ → ℕ → List Event
ticks start zero = []
ticks start (suc n) = sleeps ∷ (due (start + 1) ++ ticks (start + 1) n)

-- The loop ends when `running` is first false, however much more fuel there is, if the seconds fit in
-- an `int`.
pub event_loop-ticks :
    (n fuel start : ℕ) (running : ℕ → Bool)
    → ((i : ℕ) → i < n → running (start + i) ≡ true)
    → running (start + n) ≡ false
    → n < fuel
    → start + n < 2 ^ 31
    → event_loop fuel running start ≡ ok (ticks start n)
unfolding event_loop ticks
event_loop-ticks n zero start running on off enough small = absurd (omega (arith, enough))
event_loop-ticks zero (suc fuel) start running on off enough small =
    rw (ap running {x = start} {y = start + 0} (omega arith) ∙ off) refl
event_loop-ticks (suc n) (suc fuel) start running on off enough small =
    rw
      (
        ap running {x = start} {y = start + 0} (omega arith) ∙ on 0 (omega arith),
        lt→leb_false (2 ^ 31) (start + 1) (omega (arith, small)),
        event_loop-ticks n fuel (start + 1) running
            (λ i h. ap running (shift i) ∙ on (suc i) (omega (arith, h)))
            (ap running (shift n) ∙ off) (omega (arith, enough)) (omega (arith, small)),
      )
      refl
  where
    shift : (i : ℕ) → start + 1 + i ≡ start + suc i
    shift i = omega arith

abbrev pub seconds : List Event → ℕ
seconds [] = 0
seconds (sleeps ∷ es) = suc (seconds es)
seconds (_ ∷ es) = seconds es

abbrev pub statuses : List Event → List ℕ
statuses [] = []
statuses (reports s ∷ es) = s ∷ statuses es
statuses (_ ∷ es) = statuses es

-- 30, 60, up to the k-th multiple.
abbrev pub multiples : ℕ → List ℕ
multiples zero = []
multiples (suc k) = multiples k ++ (30 * suc k ∷ [])

ticks-snoc : (n start : ℕ) → ticks start (suc n) ≡ ticks start n ++ (sleeps ∷ due (start + suc n))
unfolding ticks
ticks-snoc zero start =
    ap (λ t. sleeps ∷ t)
      (append-nil (due (start + 1)) ∙ ap due {y = start + suc zero} (omega arith))
ticks-snoc (suc n) start =
    ap (λ t. sleeps ∷ (due (start + 1) ++ t))
      (ticks-snoc n (start + 1)
        ∙ ap (λ s. ticks (start + 1) n ++ (sleeps ∷ due s)) {y = start + suc (suc n)} (omega arith))
    ∙ ap (λ t. sleeps ∷ t)
        (sym (
          append_assoc (due (start + 1)) (ticks (start + 1) n)
            (sleeps ∷ due (start + suc (suc n)))))

statuses-append : (xs ys : List Event) → statuses (xs ++ ys) ≡ statuses xs ++ statuses ys
statuses-append [] ys = refl
statuses-append (reports s ∷ xs) ys = ap (λ t. s ∷ t) (statuses-append xs ys)
statuses-append (sleeps ∷ xs) ys = statuses-append xs ys
statuses-append (_ ∷ xs) ys = statuses-append xs ys

seconds-append : (xs ys : List Event) → seconds (xs ++ ys) ≡ seconds xs + seconds ys
seconds-append [] ys = omega arith
seconds-append (sleeps ∷ xs) ys = omega (arith, seconds-append xs ys)
seconds-append (reports s ∷ xs) ys = seconds-append xs ys
seconds-append (_ ∷ xs) ys = seconds-append xs ys

pub seconds-ticks : (n : ℕ) → seconds (ticks 0 n) ≡ n
seconds-ticks zero = unfold ticks in refl
seconds-ticks (suc n) =
    ap seconds (ticks-snoc n 0)
    ∙ seconds-append (ticks 0 n) (sleeps ∷ due (0 + suc n))
    ∙ elim (Bool-cases ((0 + suc n) % 30 == 0)) [
      | inl e ↦ rw e (omega (arith, seconds-ticks n))
      | inr e ↦ rw e (omega (arith, seconds-ticks n))
    ]

pub statuses-ticks : (n : ℕ) → statuses (ticks 0 n) ≡ multiples (n / 30)
statuses-ticks zero = unfold ticks in refl
statuses-ticks (suc n) =
    ap statuses (ticks-snoc n 0)
    ∙ statuses-append (ticks 0 n) (sleeps ∷ due (0 + suc n))
    ∙ elim (Bool-cases ((0 + suc n) % 30 == 0)) [
      | inl e ↦ rw e (
          ap₂ (λ t s. t ++ (s ∷ [])) (statuses-ticks n) (exact e)
          ∙ ap multiples {x = suc (n / 30)} (next e))
      | inr e ↦ rw e (append-nil (statuses (ticks 0 n)) ∙ statuses-ticks n ∙ ap multiples (same e))
    ]
  where
    exact : (((0 + suc n) % 30) == 0) ≡ true → 0 + suc n ≡ 30 * suc (n / 30)
    exact e = ground arith

    next : (((0 + suc n) % 30) == 0) ≡ true → suc (n / 30) ≡ suc n / 30
    next e = ground arith

    same : (((0 + suc n) % 30) == 0) ≡ false → n / 30 ≡ suc n / 30
    same e = ground arith
