-- ===== src/Worker/Backoff.antt =====
-- The doubling sleeps of the workers, server/src/bin: before the first connection, and after the
-- connection broke.
use trieve.Prelude.{
  ℕ, zero, suc, ◌*◌, ◌^◌, ◌≤◌, ◌≡◌, refl, ap, ◌∙◌, Bool, true, false, List, [], ◌∷◌, ◌++◌, min,
  arith, ◌+◌,
}
use native.Mathlib.Nat.{pow-suc}
use trieve.Worker.{World, io_error, replied, fetch, connect_loop}

-- The n-th sleep after a first one of `s` seconds: doubled each time, five minutes at most.
abbrev pub nth_sleep : ℕ → ℕ → ℕ
nth_sleep s n = min (s * 2 ^ n) 300

abbrev pub failures : ℕ → List Bool
failures zero = []
failures (suc n) = false ∷ failures n

-- The sleeps number k, k + 1, .., n of them.
abbrev pub sleeps : ℕ → ℕ → ℕ → List ℕ
sleeps s k zero = []
sleeps s k (suc n) = nth_sleep s k ∷ sleeps s (suc k) n

nth_sleep-suc : (s k : ℕ) → min (nth_sleep s k * 2) 300 ≡ nth_sleep s (suc k)
nth_sleep-suc s k = omega (arith, pow-suc 2 k, ap (λ (t : ℕ). s * t) (pow-suc 2 k))

nth_sleep-zero : (s : ℕ) → s ≤ 300 → nth_sleep s 0 ≡ s
nth_sleep-zero s h = omega arith

connect_loop-from :
    (n s k : ℕ) (rest : List Bool)
    → connect_loop (nth_sleep s k) (failures n ++ true ∷ rest) ≡ (sleeps s k n, true)
unfolding connect_loop
connect_loop-from zero s k rest = refl
connect_loop-from (suc n) s k rest = cc (nth_sleep-suc s k, connect_loop-from n s (suc k) rest)

-- After n failed attempts and a successful one the worker holds a connection, and has slept 1, 2, 4,
-- .. seconds, five minutes at most.
connect_loop-sleeps :
    (n : ℕ) (rest : List Bool) → connect_loop 1 (failures n ++ true ∷ rest) ≡ (sleeps 1 0 n, true)
connect_loop-sleeps n rest = connect_loop-from n 1 0 rest

-- A run of broken connections; the Boolean says whether the server moved a message all the same.
abbrev pub break_off : List Bool → World → World
break_off [] w = w
break_off (b ∷ bs) w = break_off bs (fetch (io_error b) w).1

abbrev pub count : List Bool → ℕ
count [] = 0
count (b ∷ bs) = suc (count bs)

break_off-from :
    (bs : List Bool) (k : ℕ) (w : World)
    → w.broken_pipe_sleep ≡ nth_sleep 10 k
    → (break_off bs w).broken_pipe_sleep ≡ nth_sleep 10 (k + count bs)
unfolding fetch
break_off-from [] k w h = ground (arith, ap (nth_sleep 10) (let e : k + 0 ≡ k = omega arith in e))
break_off-from (b ∷ bs) k w h =
    break_off-from bs (suc k) (fetch (io_error b) w).1
      (ap (λ (t : ℕ). min (t * 2) 300) h ∙ nth_sleep-suc 10 k)
    ∙ ap (nth_sleep 10) (let e : suc k + count bs ≡ k + suc (count bs) = omega arith in e)

-- After a reply, and then any number of passes that fail on a broken connection, the next such
-- failure waits 10 seconds, doubled once for each of them, and five minutes at most.
break_off_sleep :
    (bs : List Bool) (w : World)
    → (break_off bs (fetch replied w).1).broken_pipe_sleep ≡ nth_sleep 10 (count bs)
unfolding fetch
break_off_sleep bs w =
    break_off-from bs 0 (fetch replied w).1 refl
    ∙ ap (nth_sleep 10) (let e : 0 + count bs ≡ count bs = omega arith in e)
