-- ===== src/Mutex/Laws.antt =====
-- Nested guards of the recursive mutex.
use valkyrie.Base.{
  ℕ, suc, ◌+◌, ◌-◌, ◌%◌, ◌^◌, ◌<◌, max, ◌≡◌, refl, ap, ◌∙◌, Bool, true, false, not, ◌||◌,
  if◌then◌else◌, leb, ◌==◌, arith, Bool-cases, inl, inr,
}
use valkyrie.Base.Outcome.{Outcome, ok, ◌>>=◌}
use valkyrie.Mutex.{RecursiveMutex, lock, unlock, leave}

-- A program of guards: nothing, or a guard around a program, followed by another one.
pub data Guards : Type 0 where
  done : Guards
  guard : Guards → Guards → Guards

abbrev pub nesting : Guards → ℕ
nesting done = 0
nesting (guard inner rest) = max (suc (nesting inner)) (nesting rest)

-- A guard locks, and unlocks at the end of its scope.
abbrev pub run : Guards → RecursiveMutex → Outcome RecursiveMutex
run done m = ok m
run (guard inner rest) m = run inner (lock m) >>= unlock >>= run rest

-- The activated mutex after `n` guards have been entered and not left, on a processor whose interrupts
-- were on or off before the first of them.
abbrev pub entered : Bool → ℕ → RecursiveMutex
entered irqs n = record {
  is_activated = true;
  irqs_enabled = if n == 0 then irqs else false;
  is_locked = not (n == 0);
  depth = n;
}

-- Whether the program has a guard.
abbrev pub has_guard : Guards → Bool
has_guard done = false
has_guard (guard inner rest) = true

lock-entered : (irqs : Bool) (n : ℕ) → suc n < 2 ^ 31 → lock (entered irqs n) ≡ entered irqs (suc n)
unfolding lock
lock-entered irqs n h =
    let one : (n + 1) % 2 ^ 32 ≡ suc n = omega arith in
    let z : (suc n == 0) ≡ false = ground arith in rw (one, z) refl

-- Whatever the interrupts were, the outermost guard leaves them on.
unlock-entered :
    (irqs : Bool) (n : ℕ) → suc n < 2 ^ 31 → unlock (entered irqs (suc n)) ≡ ok (entered true n)
unfolding unlock leave
unlock-entered irqs n h =
    let one : (suc n + 2 ^ 32 - 1) % 2 ^ 32 ≡ n = omega arith in
    let small : leb (2 ^ 31) n ≡ false = ground arith in
    let z : (suc n == 0) ≡ false = ground arith in
    elim (Bool-cases (n == 0)) [
      | inl e ↦ rw (one, e, small) refl
      | inr e ↦ rw (one, e, z, small) refl
    ]

or_true : (b : Bool) → (b || true) ≡ true
or_true true = refl
or_true false = refl

-- Guards of an activated mutex that are nested less than 2^31 deep, inside n others, which were entered
-- with interrupts on or off: the run returns, without the endless loop of `unlock`, and the mutex
-- and its depth are as before. Interrupts are off inside other guards. Outside of any, they are on
-- after the run if they were on or if the run has a guard, also when they were off before it.
pub run_lem :
    (g : Guards) (irqs : Bool) (n : ℕ)
    → n + nesting g < 2 ^ 31
    → run g (entered irqs n) ≡ ok (entered (has_guard g || irqs) n)
run_lem done irqs n h = refl
run_lem (guard inner rest) irqs n h =
    let a : n + suc (nesting inner) < 2 ^ 31 = omega arith in
    ap (λ (m : RecursiveMutex). run inner m >>= unlock >>= run rest)
      (lock-entered irqs n (omega arith))
    ∙ ap (λ (m : Outcome RecursiveMutex). m >>= unlock >>= run rest)
        (run_lem inner irqs (suc n) (omega arith))
    ∙ ap (λ (m : Outcome RecursiveMutex). m >>= run rest)
        (unlock-entered (has_guard inner || irqs) n (omega arith))
    ∙ run_lem rest true n (omega arith)
    ∙ ap (λ (b : Bool). ok (entered b n)) (or_true (has_guard rest))
