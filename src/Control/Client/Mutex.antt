-- ===== src/Control/Client/Mutex.antt =====
-- The mutex discipline of the control client (afterburner/integration/macm.py).
use afterburner_gassist_plug.Base.{
  ℕ, zero, suc, Bool, true, false, ◌≡◌, refl, ◌==◌, leb, List, [], ◌∷◌, if◌then◌else◌,
}
use afterburner_gassist_plug.Int.{ℤ}
use afterburner_gassist_plug.Float.{Float, Rounding}
use afterburner_gassist_plug.Exec.{
  Exec, Result, ok, err, crash, ErrorCode, continue, pure, lift, ◌>>=◌,
}
use afterburner_gassist_plug.Models.{ControlFeature}
use afterburner_gassist_plug.Control.Words.{Region}
use afterburner_gassist_plug.Control.Write.{
  AppliedOutcome, apply_control_to_region, reset_control_region,
}
use afterburner_gassist_plug.Control.Client.{
  Opened, mapped, open_failed, map_failed, opened, gone, Windows, with_map, with_mutex, read_region,
  copy_words, commit, transact, transact_apply, raise_if_write_blocked_by_elevation, command_of,
  pause, poll_command, poll_once, wait_loop, wait_for_completion, verified_value,
  verified_apply_value, apply_control, reset_tuning, match_tolerance,
}

-- What holds of the world while the mutex is free (`Free`) and while this client holds it (`Held`):
-- a word is copied while it is held only, and nobody waits while holding it.
pub record Discipline {W : Type 0} (os : Windows W) (Free Held : W → Type 0) : Type 0 where
  pub lock_taken : (w : W) → Free w → (os.lock w).0 ≡ true → Held (os.lock w).1
  pub lock_failed : (w : W) → Free w → (os.lock w).0 ≡ false → Free (os.lock w).1
  pub unlock : (w : W) → Held w → Free (os.unlock w)
  pub copy_word : (o : ℕ) (src : Region) (w : W) → Held w → Held (os.copy_word o src w)
  pub read_bytes : (w : W) → Held w → Held (os.read_bytes w).1
  pub elevation_held : (w : W) → Held w → Held (os.elevation_mismatch w).1
  pub elevation_free : (w : W) → Free w → Free (os.elevation_mismatch w).1
  pub open_map : (w : W) → Free w → Free (os.open_map w).1
  pub close_map : (w : W) → Free w → Free (os.close_map w)
  pub notify : (w : W) → Free w → Free (os.notify w)
  pub clock : (w : W) → Free w → Free (os.clock w).1
  pub sleep : (w : W) → Free w → Free (os.sleep w)

-- a call from a world with the property ends in one, however it ends
abbrev pub Stays : {W A : Type 0} → (W → Type 0) → Exec W A → Type 0
Stays {W} P m = (w : W) → P w → P (m w).1

module _ {W : Type 0} (P : W → Type 0) where
  continue-Stays :
      {A B : Type 0} (r : Result A) (f : A → Exec W B) (w : W)
      → P w
      → ((a : A) → Stays P (f a))
      → P (continue r f w).1
  continue-Stays (ok a) f w h k = k a w h
  continue-Stays (err e) f w h k = h
  continue-Stays crash f w h k = h

  >>=-Stays :
      {A B : Type 0} (m : Exec W A) (f : A → Exec W B)
      → Stays P m
      → ((a : A) → Stays P (f a))
      → Stays P (m >>= f)
  >>=-Stays m f h k w p = continue-Stays (m w).0 f (m w).1 (h w p) k

  if-Stays :
      {A : Type 0} (b : Bool) (m n : Exec W A)
      → Stays P m
      → Stays P n
      → Stays P (if b then m else n)
  if-Stays true m n h k = h
  if-Stays false m n h k = k

if-world :
    {W A : Type 0} (P : W → Type 0) (b : Bool) (x y : Result A × W)
    → P x.1
    → P y.1
    → P (if b then x else y).1
if-world P true x y h k = h
if-world P false x y h k = k

module _ {W : Type 0} (os : Windows W) (Free Held : W → Type 0) (d : Discipline os Free Held) where
  with_mutex-Stays : {A : Type 0} (m : Exec W A) → Stays Held m → Stays Free (with_mutex os m)
  unfolding with_mutex
  with_mutex-Stays {A} m h w p =
      after_lock (os.lock w).0 (os.lock w).1 (d.lock_taken w p) (d.lock_failed w p)
    where
      after_lock :
          (b : Bool) (w1 : W)
          → (b ≡ true → Held w1)
          → (b ≡ false → Free w1)
          → Free
              (continue {A = Unit {0}} {B = A}
                (if b then ok tt else err ErrorCode.interface_unavailable)
                (λ _ w. ((m w).0, os.unlock (m w).1))
                w1).1
      after_lock true w1 x y = d.unlock _ (h w1 (x refl))
      after_lock false w1 x y = y refl

  with_map-Stays : {A : Type 0} (m : Exec W A) → Stays Free m → Stays Free (with_map os m)
  unfolding with_map
  with_map-Stays {A} m h w p = after_open (os.open_map w).0 (os.open_map w).1 (d.open_map w p)
    where
      after_open :
          (o : Opened) (w1 : W)
          → Free w1
          → let (r, w2) = opened os o w1 in
            Free (continue {A = Unit {0}} {B = A} r (λ _ w. ((m w).0, os.close_map (m w).1)) w2).1
      after_open mapped w1 x = d.close_map _ (h w1 x)
      after_open (open_failed n) w1 x = x
      after_open (map_failed n) w1 x = d.close_map w1 x

  copy_words-Held :
      (offsets : List ℕ) (src : Region) (w : W) → Held w → Held (copy_words os offsets src w)
  unfolding copy_words
  copy_words-Held [] src w p = p
  copy_words-Held (o ∷ offsets) src w p = copy_words-Held offsets src _ (d.copy_word o src w p)

  elevation-Stays : Stays Held (raise_if_write_blocked_by_elevation os)
  unfolding raise_if_write_blocked_by_elevation
  elevation-Stays w p = d.elevation_held w p

  commit-Stays : (o : Result AppliedOutcome × Region) → Stays Held (commit os o)
  unfolding commit
  commit-Stays (o, region) =
      >>=-Stays Held (lift o) _ (λ w p. p)
        (λ a.
          if-Stays Held a.applied _ _
            (>>=-Stays Held (raise_if_write_blocked_by_elevation os) _ elevation-Stays
              (λ _ w p. copy_words-Held a.word_offsets region w p))
            (λ w p. p))

  transact-Stays :
      (change : Region → Result AppliedOutcome × Region) → Stays Free (transact os change)
  unfolding transact
  transact-Stays change = with_mutex-Stays (read_region os >>= λ r. commit os (change r)) (
      >>=-Stays Held (read_region os) (λ r. commit os (change r)) d.read_bytes
        (λ r. commit-Stays (change r)))

  pub poll_command-Stays : Stays Free (poll_command os)
  unfolding poll_command
  poll_command-Stays =
      with_mutex-Stays (read_region os >>= λ r. pure (command_of os r))
        (>>=-Stays Held (read_region os) (λ r. pure (command_of os r)) d.read_bytes (λ r w p. p))

  pause-Stays : (deadline : ℕ) → Stays Free (pause os deadline)
  unfolding pause
  pause-Stays deadline w p =
      let (now, w1) = os.clock w in
      let p1 = d.clock w p in
      if-world Free (leb deadline now) _ _ (d.elevation_free w1 p1) (d.sleep w1 p1)

  poll_once-Stays : (deadline : ℕ) → Stays Free (poll_once os deadline)
  unfolding poll_once
  poll_once-Stays deadline = >>=-Stays Free (poll_command os) _ poll_command-Stays (λ command.
      if-Stays Free (command == 0) _ _ (λ w p. p)
        (if-Stays Free (command == gone) _ _ (λ w p. p) (pause-Stays deadline)))

  wait_loop-Stays : (deadline fuel : ℕ) → Stays Free (wait_loop os deadline fuel)
  unfolding wait_loop
  wait_loop-Stays deadline zero = λ w p. p
  wait_loop-Stays deadline (suc fuel) =
      >>=-Stays Free (poll_once os deadline) _ (poll_once-Stays deadline)
        (λ b. if-Stays Free b _ _ (λ w p. p) (wait_loop-Stays deadline fuel))

  wait_for_completion-Stays :
      (fuel flush_timeout : ℕ) → Stays Free (wait_for_completion os fuel flush_timeout)
  unfolding wait_for_completion
  wait_for_completion-Stays fuel flush_timeout w p =
      wait_loop-Stays _ fuel _ (d.clock _ (d.notify w p))

  verified_apply_value-Stays :
      (rnd : Rounding) (gpu : ℤ) (feature : ControlFeature)
      → Stays Free (verified_apply_value os rnd gpu feature)
  unfolding verified_apply_value
  verified_apply_value-Stays rnd gpu feature =
      with_mutex-Stays (read_region os >>= λ r. lift (verified_value os rnd gpu feature r)) (
        >>=-Stays Held (read_region os) (λ r. lift (verified_value os rnd gpu feature r))
          d.read_bytes (λ r w p. p))

  -- `apply_control`, from a world where the mutex is free, copies words only while it holds the mutex,
  -- waits and asks the clock only while it does not, and ends with the mutex free, however the call
  -- ends: with a value, a noop, a typed error at any step, or no fuel left.
  pub apply_control-Discipline :
      (rnd : Rounding) (fuel flush_timeout : ℕ) (gpu : ℤ) (feature : ControlFeature) (value : Float)
      (w : W)
      → Free w
      → Free (apply_control os rnd fuel flush_timeout gpu feature value w).1
  unfolding apply_control transact_apply
  apply_control-Discipline rnd fuel flush_timeout gpu feature value w p =
      with_map-Stays _
        (>>=-Stays Free
          (transact os (apply_control_to_region rnd gpu feature value (match_tolerance os rnd))) _
          (transact-Stays _)
          (λ a.
            if-Stays Free a.applied _ _
              (>>=-Stays Free (wait_for_completion os fuel flush_timeout) _
                (wait_for_completion-Stays fuel flush_timeout)
                (λ b.
                  if-Stays Free b _ _
                    (>>=-Stays Free (verified_apply_value os rnd gpu feature) _
                      (verified_apply_value-Stays rnd gpu feature) (λ _ w p. p))
                    (λ w p. p)))
              (λ w p. p)))
        w p

  -- The same of `reset_tuning`.
  pub reset_tuning-Discipline :
      (rnd : Rounding) (fuel flush_timeout : ℕ) (gpu : ℤ) (w : W)
      → Free w
      → Free (reset_tuning os rnd fuel flush_timeout gpu w).1
  unfolding reset_tuning
  reset_tuning-Discipline rnd fuel flush_timeout gpu w p =
      with_map-Stays _
        (>>=-Stays Free (transact os (reset_control_region rnd gpu (match_tolerance os rnd))) _
          (transact-Stays _)
          (λ a.
            if-Stays Free a.applied _ _
              (>>=-Stays Free (wait_for_completion os fuel flush_timeout) _
                (wait_for_completion-Stays fuel flush_timeout)
                (λ b. if-Stays Free b _ _ (λ w p. p) (λ w p. p)))
              (λ w p. p)))
        w p
