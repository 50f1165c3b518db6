-- ===== src/Control/Client/Wait.antt =====
-- The wait of the control client for Afterburner (`_wait_for_completion` of
-- afterburner/integration/macm.py) comes to an end.
use afterburner_gassist_plug.Base.{
  ℕ, zero, suc, ◌+◌, ◌-◌, ◌<◌, ◌≤◌, true, false, ◌≡◌, refl, sym, ◌∙◌, Bool, if◌then◌else◌, leb,
  ◌==◌, arith,
}
use afterburner_gassist_plug.Exec.{Result, ok, err, crash, pure, ◌>>=◌}
use afterburner_gassist_plug.Exec.Hoare.{
  Ensures, Ensures-if, Ensures-branch, Ensures-bind, Ensures-weaken,
}
use afterburner_gassist_plug.Control.Words.{Region, u32}
use afterburner_gassist_plug.Control.Client.Mutex.{Discipline, poll_command-Stays}
use afterburner_gassist_plug.Control.Layout.{header_size, signature_at, command_at}
use afterburner_gassist_plug.Control.Header.{macm_signature}
use afterburner_gassist_plug.Control.Client.{
  Windows, pause, command_of, with_mutex, read_region, poll_command, poll_once, wait_loop,
  wait_for_completion, gone,
}

-- A clock that never goes back, and that a pause moves on.
pub record Clock {W : Type 0} (os : Windows W) (now : W → ℕ) : Type 0 where
  pub reads : (w : W) → (now w ≤ (os.clock w).0) × ((os.clock w).0 ≤ now (os.clock w).1)
  pub sleep : (w : W) → now w < now (os.sleep w)
  pub lock : (w : W) → now w ≤ now (os.lock w).1
  pub unlock : (w : W) → now w ≤ now (os.unlock w)
  pub copy_word : (o : ℕ) (src : Region) (w : W) → now w ≤ now (os.copy_word o src w)
  pub read_bytes : (w : W) → now w ≤ now (os.read_bytes w).1
  pub elevation_mismatch : (w : W) → now w ≤ now (os.elevation_mismatch w).1
  pub open_map : (w : W) → now w ≤ now (os.open_map w).1
  pub close_map : (w : W) → now w ≤ now (os.close_map w)
  pub notify : (w : W) → now w ≤ now (os.notify w)

module _ {W : Type 0} (os : Windows W) where
  -- The last thing done was to read, under the mutex, a region of the right signature whose command is
  -- 0: Afterburner has taken it.
  pub record IsTaken (w' : W) : Type 0 where
    pub before : W
    pub region : Region
    pub read : with_mutex os (read_region os) before ≡ (ok region, w')
    pub whole : header_size ≤ region.size
    pub signed : u32 region signature_at ≡ macm_signature
    pub taken : u32 region command_at ≡ 0

  with_mutex-map :
      (g : Region → ℕ) (w : W)
      → Ensures
          (λ n w1. (r : Region) × (with_mutex os (read_region os) w ≡ (ok r, w1)) × (n ≡ g r))
          (λ _. Unit {0})
          (with_mutex os (read_region os >>= λ r. pure (g r)) w)
  unfolding with_mutex
  with_mutex-map g w = locked (os.lock w).0 refl
    where
      locked :
          (b : Bool)
          → (os.lock w).0 ≡ b
          → Ensures
              (λ n w1. (r : Region) × (with_mutex os (read_region os) w ≡ (ok r, w1)) × (n ≡ g r))
              (λ _. Unit {0})
              (with_mutex os (read_region os >>= λ r. pure (g r)) w)
      locked true e = rw e (_, refl, refl)
      locked false e = rw e tt

  command_of-IsTaken :
      (r : Region)
      → command_of os r ≡ 0
      → (header_size ≤ r.size) × (u32 r signature_at ≡ macm_signature) × (u32 r command_at ≡ 0)
  unfolding command_of
  command_of-IsTaken r e = (ground arith, ground arith, ground arith)

  poll_command-IsTaken :
      (w : W) → Ensures (λ n w1. n ≡ 0 → IsTaken w1) (λ _. Unit {0}) (poll_command os w)
  unfolding poll_command
  poll_command-IsTaken w =
      Ensures-weaken
        (λ n w1.
          (r : Region) × (with_mutex os (read_region os) w ≡ (ok r, w1)) × (n ≡ command_of os r))
        (λ n w1. n ≡ 0 → IsTaken w1) (λ _. Unit) (poll_command os w)
        (λ n w1 (r, read, e) zero.
          let (a, b, c) = command_of-IsTaken r (sym e ∙ zero) in
          record { before = w; region = r; read = read; whole = a; signed = b; taken = c })
        (with_mutex-map (command_of os) w)

module _ {W : Type 0} (os : Windows W) (now : W → ℕ) (c : Clock os now) where
  -- once `n` is reached, it stays so
  clock-Discipline : (n : ℕ) → Discipline os (λ w. n ≤ now w) (λ w. n ≤ now w)
  clock-Discipline n = record {
    lock_taken = λ w p _. omega (arith, c.lock w);
    lock_failed = λ w p _. omega (arith, c.lock w);
    unlock = λ w p. omega (arith, c.unlock w);
    copy_word = λ o src w p. omega (arith, c.copy_word o src w);
    read_bytes = λ w p. omega (arith, c.read_bytes w);
    elevation_held = λ w p. omega (arith, c.elevation_mismatch w);
    elevation_free = λ w p. omega (arith, c.elevation_mismatch w);
    open_map = λ w p. omega (arith, c.open_map w);
    close_map = λ w p. omega (arith, c.close_map w);
    notify = λ w p. omega (arith, c.notify w);
    clock = λ w p. omega (arith, c.reads w);
    sleep = λ w p. omega (arith, c.sleep w);
  }

  poll_command-later :
      (w : W) → Ensures (λ _ w1. now w ≤ now w1) (λ _. Unit {0}) (poll_command os w)
  poll_command-later w =
      Ensures-of-world (poll_command os w)
        (poll_command-Stays os _ _ (clock-Discipline (now w)) w (omega arith))
    where
      Ensures-of-world :
          (o : Result ℕ × W) → now w ≤ now o.1 → Ensures (λ _ w1. now w ≤ now w1) (λ _. Unit {0}) o
      Ensures-of-world (ok a, w1) h = h
      Ensures-of-world (err e, w1) h = tt
      Ensures-of-world (crash, w1) h = tt

  -- A pass that goes on is before the deadline and ends later than it began; one that does not has seen
  -- the command taken.
  abbrev Passed : ℕ → W → Bool → W → Type 0
  Passed deadline w false w1 = (now w < deadline) × (now w < now w1)
  Passed deadline w true w1 = IsTaken os w1

  both :
      {A : Type 0} (P Q : A → W → Type 0) (o : Result A × W)
      → Ensures P (λ _. Unit {0}) o
      → Ensures Q (λ _. Unit {0}) o
      → Ensures (λ a w. P a w × Q a w) (λ _. Unit {0}) o
  both P Q (ok a, w) h k = (h, k)
  both P Q (err e, w) h k = tt
  both P Q (crash, w) h k = tt

  poll_once-later :
      (deadline : ℕ) (w : W) → Ensures (Passed deadline w) (λ _. Unit {0}) (poll_once os deadline w)
  unfolding poll_once pause
  poll_once-later deadline w =
      Ensures-bind (λ n w1. (now w ≤ now w1) × (n ≡ 0 → IsTaken os w1)) _ _ (poll_command os) _ w
        (both _ _ _ (poll_command-later w) (poll_command-IsTaken os w))
        (λ command w1 (le, taken).
          Ensures-branch _ _ (command == 0) _ _ w1 (λ zero. taken (ground arith))
            (λ _.
              Ensures-branch _ _ (command == gone) _ _ w1 (λ _. tt)
                (λ _.
                  Ensures-if _ _ (leb deadline (os.clock w1).0) _ _ (λ _. tt)
                    (λ late.
                      let (a, b) = c.reads w1 in
                      let s = c.sleep (os.clock w1).1 in
                      let lt : (os.clock w1).0 < deadline = ground arith in
                      (omega arith, omega arith)))))

  wait_loop-ends :
      (deadline fuel : ℕ) (w : W)
      → deadline - now w < fuel
      → Ensures (λ b w'. (b ≡ true) × IsTaken os w') (λ _. Unit {0}) (wait_loop os deadline fuel w)
  unfolding wait_loop
  wait_loop-ends deadline zero w h = absurd (omega arith)
  wait_loop-ends deadline (suc fuel) w h =
      Ensures-bind _ _ _ (poll_once os deadline) _ w (poll_once-later deadline w)
        (λ b w1 k. pass b w1 k (λ (x, y). wait_loop-ends deadline fuel w1 (omega arith)))
    where
      pass :
          (b : Bool) (w1 : W)
          → Passed deadline w b w1
          → ((now w < deadline) × (now w < now w1)
              → Ensures
                  (λ b w'. (b ≡ true) × IsTaken os w')
                  (λ _. Unit {0})
                  (wait_loop os deadline fuel w1))
          → Ensures
              (λ b w'. (b ≡ true) × IsTaken os w')
              (λ _. Unit {0})
              ((if b then pure true else wait_loop os deadline fuel) w1)
      pass true w1 k next = (refl, k)
      pass false w1 k next = next k

  -- With a clock that does not go back and that a pause moves on by a tick or more, fuel for one pass
  -- more than the ticks of `flush_timeout` is enough: the wait ends. It returns only where the last thing
  -- done was to read, under the mutex, a region of the right signature with the command 0; otherwise it
  -- raises.
  pub wait_for_completion-ends :
      (fuel flush_timeout : ℕ) (w : W)
      → flush_timeout < fuel
      → Ensures
          (λ b w'. (b ≡ true) × IsTaken os w')
          (λ _. Unit {0})
          (wait_for_completion os fuel flush_timeout w)
  unfolding wait_for_completion
  wait_for_completion-ends fuel flush_timeout w h =
      let (a, b) = c.reads (os.notify w) in
      wait_loop-ends ((os.clock (os.notify w)).0 + flush_timeout) fuel _ (omega arith)
