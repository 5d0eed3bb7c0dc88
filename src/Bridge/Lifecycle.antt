-- ===== src/Bridge/Lifecycle.antt =====
-- What the bridge does from its start to its end.
use paum_io_t.Common.{◌^◌}
use paum_io_t.Common.{
  ℕ, zero, suc, ◌+◌, ◌/◌, ◌%◌, ◌==◌, ◌<◌, ◌≡◌, refl, ap, ◌∙◌, arith, true, false, Bool, List, [],
  ◌∷◌, ◌++◌, Option, none, some, not, if◌then◌else◌, Bool-cases, inl, inr,
}
use paum_io_t.Common.Int.{ℤ}
use Prim.Native.String.{String}
use paum_io_t.Codes.{Code, is_success}
use paum_io_t.World.{Env, World}
use paum_io_t.World.Rules.{Ensures, >>=-Ensures, ok-Ensures, lift-ok, Ensures-weaken}
use paum_io_t.Mqtt.Delivery.{Never}
use paum_io_t.Bridge.{
  Config, initial_config, Middleware, Event, asks_init, starts, shows, sleeps, reports, stops,
  warns, cleans_up, parse_args, send_test, run_bridge, with_config, main,
}
use paum_io_t.Bridge.SendTest.{IsShown, Shows, send_test-Shows}
use paum_io_t.Bridge.Loop.{ticks, event_loop-ticks, seconds, statuses, multiples}

-- What the program does last.
abbrev pub ending : Code → List Event
ending stop = stops ∷ ((if not (is_success stop) then warns stop ∷ [] else []) ++ (cleans_up ∷ []))

-- The program ran for `n` seconds and shut down in order.
pub record Finished (config : Config) (stop : Code) (n : ℕ) (r : ℕ × List Event) : Type 0 where
  pub exit : r.0 ≡ 0
  pub shown : List Event
  pub rounds : List Event
  pub order : r.1 ≡ asks_init config ∷ starts ∷ (shown ++ (rounds ++ ending stop))
  pub message : IsShown shown
  pub slept : seconds rounds ≡ n
  pub status : statuses rounds ≡ multiples (n / 30)

abbrev pub cleanups : List Event → ℕ
cleanups [] = 0
cleanups (cleans_up ∷ es) = suc (cleanups es)
cleanups (_ ∷ es) = cleanups es

cleanups-append : (xs ys : List Event) → cleanups (xs ++ ys) ≡ cleanups xs + cleanups ys
cleanups-append [] ys = omega arith
cleanups-append (cleans_up ∷ xs) ys = omega (arith, cleanups-append xs ys)
cleanups-append (sleeps ∷ xs) ys = cleanups-append xs ys
cleanups-append (_ ∷ xs) ys = cleanups-append xs ys

cleanups-shown : (xs : List Event) → IsShown xs → cleanups xs ≡ 0
cleanups-shown [] h = refl
cleanups-shown (shows s ∷ []) h = refl
cleanups-shown (shows s ∷ (e ∷ xs)) h = absurd h
cleanups-shown (asks_init c ∷ xs) h = absurd h
cleanups-shown (starts ∷ xs) h = absurd h
cleanups-shown (sleeps ∷ xs) h = absurd h
cleanups-shown (reports s ∷ xs) h = absurd h
cleanups-shown (stops ∷ xs) h = absurd h
cleanups-shown (warns c ∷ xs) h = absurd h
cleanups-shown (cleans_up ∷ xs) h = absurd h

cleanups-ticks : (n start : ℕ) → cleanups (ticks start n) ≡ 0
unfolding ticks
cleanups-ticks zero start = refl
cleanups-ticks (suc n) start = elim (Bool-cases ((start + 1) % 30 == 0)) [
  | inl e ↦ rw e (cleanups-ticks n (start + 1))
  | inr e ↦ rw e (cleanups-ticks n (start + 1))
]

cleanups-ending : (stop : Code) → cleanups (ending stop) ≡ 1
cleanups-ending stop = elim (Bool-cases (not (is_success stop))) [
  | inl e ↦ rw e refl
  | inr e ↦ rw e refl
]

-- The contexts that `paumiot_init` returns in a run.
abbrev pub contexts : Middleware → Option Config → ℕ
contexts middleware none = 0
contexts middleware (some config) = if middleware.init config then 1 else 0

-- The events behind `paumiot_init` in a run of `n` seconds.
abbrev body : Middleware → ℕ → List Event → List Event
body middleware n shown = starts ∷ (shown ++ (ticks 0 n ++ ending middleware.stop))

abbrev Ran : Middleware → ℕ → World → ℕ × List Event → World → Type 0
Ran middleware n w r v =
    (shown : List Event) × IsShown shown × (r ≡ (0, body middleware n shown)) × (v.live ≡ w.live)

module _ (env : Env) (middleware : Middleware) (running : ℕ → Bool) (fuel n : ℕ) (w : World)
    (on : (i : ℕ) → i < n → running i ≡ true) (off : running n ≡ false) (enough : n < fuel)
    (small : n < 2 ^ 31) where
  run_bridge-Ran :
      is_success middleware.start ≡ true
      → Ensures (Ran middleware n w) Never (run_bridge env middleware running fuel w)
  unfolding run_bridge
  run_bridge-Ran e = rw e (
      >>=-Ensures (Shows env w) (Ran middleware n w) Never (send_test env) _ w
        (send_test-Shows env w)
        λ shown v k.
          ok-Ensures (Ran middleware n w) Never _ _ v {a = ticks 0 n} {w' = v}
            (lift-ok v (
              event_loop-ticks n fuel 0 running (λ i h. ap running {y = i} (omega arith) ∙ on i h)
                (ap running {y = n} (omega arith) ∙ off) enough (omega (arith, small))))
            (finish shown v k))
    where
      finish :
          (shown : List Event) (v : World)
          → Shows env w shown v
          → Ran middleware n w (0, body middleware n shown) v
      finish shown v k = (shown, k.0, refl, k.1)

-- Whatever the arguments are, and whatever the middleware answers, once `running` becomes false, after
-- a number of seconds that is an `int`, the program returns, has called `paumiot_cleanup` once for each context that `paumiot_init` returned,
-- and leaves no block behind.
pub main-cleans_up :
    (env : Env) (middleware : Middleware) (atoi : String → ℤ) (running : ℕ → Bool) (fuel n : ℕ)
    (args : List String) (w : World)
    → ((i : ℕ) → i < n → running i ≡ true)
    → running n ≡ false
    → n < fuel
    → n < 2 ^ 31
    → Ensures
        (λ r v.
          (cleanups r.1 ≡ contexts middleware (parse_args atoi args initial_config))
          × (v.live ≡ w.live))
        Never
        (main env middleware atoi running fuel args w)
unfolding main
main-cleans_up env middleware atoi running fuel n args w on off enough small =
    by_config (parse_args atoi args initial_config)
  where
    Clean : ℕ → ℕ × List Event → World → Type 0
    Clean k r v = (cleanups r.1 ≡ k) × (v.live ≡ w.live)

    one_cleanup : (shown : List Event) → IsShown shown → cleanups (body middleware n shown) ≡ 1
    one_cleanup shown h =
        cleanups-append shown (ticks 0 n ++ ending middleware.stop)
        ∙ omega (
          arith,
          cleanups-shown shown h,
          cleanups-append (ticks 0 n) (ending middleware.stop),
          cleanups-ticks n 0,
          cleanups-ending middleware.stop,
        )

    ran : Ensures (Clean 1) Never (run_bridge env middleware running fuel w)
    ran = elim (Bool-cases (is_success middleware.start)) [
      | inl e ↦
          Ensures-weaken (Ran middleware n w) (Clean 1) Never Never
            (run_bridge env middleware running fuel w)
            (run_bridge-Ran env middleware running fuel n w on off enough small e)
            (λ r v k. (ap (λ x. cleanups x.1) k.2 ∙ one_cleanup k.0 k.1, k.3)) (λ c v k. k)
      | inr e ↦ unfold run_bridge in rw e (refl, refl)
    ]

    by_config :
        (o : Option Config)
        → Ensures
            (Clean (contexts middleware o))
            Never
            (with_config env middleware running fuel o w)
    by_config none = unfold with_config in (refl, refl)
    by_config (some config) = elim (Bool-cases (middleware.init config)) [
      | inl e ↦
          unfold with_config in
          rw e (
            >>=-Ensures (Clean 1) (Clean 1) Never (run_bridge env middleware running fuel) _ w ran
              λ r v k. k)
      | inr e ↦ unfold with_config in rw e (refl, refl)
    ]
