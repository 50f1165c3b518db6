-- ===== src/Services/Profiles/Verified.antt =====
-- What a profile that is reported as applied has shown (afterburner/services/profiles.py).
use afterburner_gassist_plug.Base.{
  ℕ, ◌≡◌, refl, sym, subst, true, false, Bool, String, Option, none, some, List, [], ◌∷◌, not,
  arith,
}
use afterburner_gassist_plug.Int.{ℤ}
use afterburner_gassist_plug.Float.{Float, Rounding, float_lt, float_abs, float_sub}
use afterburner_gassist_plug.Value.{Value}
use afterburner_gassist_plug.Dict.{string_eq}
use afterburner_gassist_plug.Exec.{Exec, Result, ok, err, crash, ErrorCode, raise_if}
use afterburner_gassist_plug.Exec.Hoare.{
  Ensures, Ensures-bind, Ensures-or_raise, Ensures-raise_if, Ensures-eq, Ensures-weaken,
}
use afterburner_gassist_plug.Models.{
  ControlFeature, ControlResult, GpuCapabilities, TuningState, is_ok, supports,
}
use afterburner_gassist_plug.Interface.{Interface, Host}
use afterburner_gassist_plug.Integration.Client
use afterburner_gassist_plug.Integration.Client.{typed}
use afterburner_gassist_plug.Safety.Capabilities.{resolve}
use afterburner_gassist_plug.Safety.Frame.{resolve-Resolved}
use afterburner_gassist_plug.Integration.ProfileFiles.{ProfilesSnapshot, ProfileSlotInfo}
use afterburner_gassist_plug.Services.Calls.{Calls, nothing_called}
use afterburner_gassist_plug.Services.Profiles.{
  valid_id, find_slot, is_empty, is_readable, read_snapshot, resolve_control, apply_slot,
  verify_state, verify_applied, confirmed, all_confirmed, state_value, apply_and_verify,
  load_profile,
}
use afterburner_gassist_plug.Services.Profiles.Applied.{
  guard-Ensures, calls-ReadFrame, apply_slot-IsWritten,
}

module _ {W : Type 0} (rnd : Rounding) (int_of_text : String → Option ℤ) (tolerance : Float)
    (reader : Exec W ProfilesSnapshot) (host : Host W) (timeout : ℕ) (i : Interface W)
    (gpu : ℤ) where
  -- Each value is there, and the distance to what is there is not over the tolerance (nor is it where it
  -- is no number).
  abbrev pub AreThere : TuningState → List (ControlFeature × Float) → Type 0
  AreThere state [] = Unit {0}
  AreThere state ((f, v) ∷ rest) =
      ((x : Float) × (state_value f state ≡ some x)
        × (float_lt tolerance (float_abs (float_sub rnd x v)) ≡ false))
      × AreThere state rest

  confirmed-lem :
      (o : Option Float) (v : Float)
      → confirmed rnd int_of_text tolerance o v ≡ true
      → (x : Float) × (o ≡ some x) × (float_lt tolerance (float_abs (float_sub rnd x v)) ≡ false)
  confirmed-lem none v h = absurd (cc)
  confirmed-lem (some x) v h = (x, refl, ground arith)

  all_confirmed-AreThere :
      (state : TuningState) (applied : List (ControlFeature × Float))
      → all_confirmed rnd int_of_text tolerance state applied ≡ true
      → AreThere state applied
  unfolding all_confirmed
  all_confirmed-AreThere state [] h = tt
  all_confirmed-AreThere state ((f, v) ∷ rest) h = (
    confirmed-lem (state_value f state) v (ground arith),
    all_confirmed-AreThere state rest (ground arith),
  )

  -- The calls of a successful load from `w`, one after the other: the profiles are read; then come calls
  -- that write just the values `applied`, one at least; and the last call reads the tuning state.
  pub record IsLoaded (profile_id : Value) (w w' : W) : Type 0 where
    pub number : ℕ
    pub snapshot : ProfilesSnapshot
    pub slot : ProfileSlotInfo
    pub applied : List (ControlFeature × Float)
    pub state : TuningState
    pub after_read : W
    pub after_writes : W
    pub valid : valid_id profile_id ≡ some number
    pub read : reader w ≡ (ok snapshot, after_read)
    pub found : find_slot number snapshot.slots ≡ some slot
    pub written : Calls i host gpu after_read applied after_writes
    pub some_applied : is_empty applied ≡ false
    pub read_back : i.read_tuning_state gpu after_writes ≡ (ok state, w')
    pub there : AreThere state applied

  -- the snapshot is what the reader gave
  read_snapshot-reader :
      (w : W)
      → Ensures
          (λ s w1. reader w ≡ (ok s, w1))
          (λ _. Unit {0})
          (read_snapshot rnd int_of_text tolerance reader host timeout w)
  unfolding read_snapshot
  read_snapshot-reader w =
      Ensures-bind (λ s w1. reader w ≡ (ok s, w1)) _ (λ _. Unit) reader _ w (Ensures-eq (reader w))
        (λ s w1 e.
          Ensures-raise_if _ _ (not (is_readable s.state)) ErrorCode.interface_unavailable _ w1 tt
            (λ _. e))

  -- the interface that comes with the capabilities is the client's
  resolve_control-IsWritten :
      (start w : W)
      → Calls i host gpu start [] w
      → Ensures
          (λ ic w1. (ic.0 ≡ i) × Calls i host gpu start [] w1)
          (λ _. Unit {0})
          (resolve_control rnd int_of_text tolerance reader host timeout (some i) gpu w)
  unfolding resolve_control
  resolve_control-IsWritten start w h =
      Ensures-bind (λ _. Calls i host gpu start []) _ (λ _. Unit) (resolve i host timeout gpu) _ w
        (kept (resolve i host timeout gpu w) (
          resolve-Resolved i host timeout
            (calls-ReadFrame rnd int_of_text tolerance reader host timeout i gpu start []) w h))
        (λ r w' k.
          Ensures-raise_if _ _ (not (is_ok r.caps.control_interface_status))
            ErrorCode.interface_unavailable _ w' tt
            (λ _.
              Ensures-raise_if _ _ (not (supports r.caps ControlFeature.profile_load))
                ErrorCode.interface_unavailable _ w' tt (λ _. (refl, k))))
    where
      kept :
          {A : Type 0} (o : Result A × W)
          → Ensures (λ _ w1. Calls i host gpu start [] w1 × Unit {0}) (Calls i host gpu start []) o
          → Ensures (λ _. Calls i host gpu start []) (λ _. Unit {0}) o
      kept (ok a, w1) h = h.0
      kept (err e, w1) h = tt
      kept (crash, w1) h = tt

  -- what the part behind the choice of the slot has done
  abbrev IsVerified : W → W → Type 0
  IsVerified start w' =
      (applied : List (ControlFeature × Float)) × (state : TuningState) × (between : W) × Calls i
        host gpu start applied between
      × (is_empty applied ≡ false)
      × (i.read_tuning_state gpu between ≡ (ok state, w'))
      × AreThere state applied

  verify_applied-AreThere :
      (caps : GpuCapabilities) (applied : List (ControlFeature × Float)) (w : W)
      → Ensures
          (λ _ w'.
            (state : TuningState) × (i.read_tuning_state gpu w ≡ (ok state, w'))
            × AreThere state applied)
          (λ _. Unit {0})
          (verify_applied rnd int_of_text tolerance reader host timeout i gpu caps applied w)
  unfolding verify_applied Client.read_tuning_state
  verify_applied-AreThere caps applied w = read (i.read_tuning_state gpu w).0 refl
    where
      sure :
          (state : TuningState) (b : Bool)
          → (i.read_tuning_state gpu w).0 ≡ ok state
          → all_confirmed rnd int_of_text tolerance state applied ≡ b
          → Ensures
              (λ _ w'.
                (s : TuningState) × (i.read_tuning_state gpu w ≡ (ok s, w')) × AreThere s applied)
              (λ _. Unit {0})
              (raise_if (not b) ErrorCode.comm_failure (i.read_tuning_state gpu w).1)
      sure state true e c = (
        state,
        (λ j. (e j, (i.read_tuning_state gpu w).1)),
        all_confirmed-AreThere state applied c,
      )
      sure state false e c = tt

      read :
          (r : Result TuningState)
          → (i.read_tuning_state gpu w).0 ≡ r
          → Ensures
              (λ _ w'.
                (s : TuningState) × (i.read_tuning_state gpu w ≡ (ok s, w')) × AreThere s applied)
              (λ _. Unit {0})
              (verify_state rnd int_of_text tolerance reader host timeout i gpu caps applied
                (typed r)
                (i.read_tuning_state gpu w).1)
      read (ok state) e = sure state (all_confirmed rnd int_of_text tolerance state applied) e refl
      read (err c) e = tt
      read crash e = tt

  apply_and_verify-IsVerified :
      (start w : W) (caps : GpuCapabilities) (slot : ProfileSlotInfo)
      → Calls i host gpu start [] w
      → Ensures
          (λ _ w'. IsVerified start w')
          (λ _. Unit {0})
          (apply_and_verify rnd int_of_text tolerance reader host timeout i gpu caps
            ControlFeature.profile_load slot w)
  unfolding apply_and_verify
  apply_and_verify-IsVerified start w caps slot h =
      Ensures-bind (λ xs w1. Calls i host gpu start xs w1) (λ _ w'. IsVerified start w') (λ _. Unit)
        (apply_slot rnd int_of_text tolerance reader host timeout i gpu caps slot) _ w
        (apply_slot-IsWritten rnd int_of_text tolerance reader host timeout i gpu start caps slot w
          h)
        (λ applied w1 k.
          Ensures-raise_if _ _ (is_empty applied) ErrorCode.interface_unavailable _ w1 tt
            (λ some_applied.
              Ensures-bind
                (λ _ w'.
                  (s : TuningState) × (i.read_tuning_state gpu w1 ≡ (ok s, w'))
                  × AreThere s applied)
                (λ _ w'. IsVerified start w') (λ _. Unit)
                (verify_applied rnd int_of_text tolerance reader host timeout i gpu caps applied) _
                w1 (verify_applied-AreThere caps applied w1)
                (λ _ w2 (s, read, there). (applied, s, w1, k, some_applied, read, there))))

  resolved-IsVerified :
      (ic : Interface W × GpuCapabilities) (start w : W) (slot : ProfileSlotInfo)
      → ic.0 ≡ i
      → Calls i host gpu start [] w
      → Ensures
          (λ _ w'. IsVerified start w')
          (λ _. Unit {0})
          (apply_and_verify rnd int_of_text tolerance reader host timeout ic.0 gpu ic.1
            ControlFeature.profile_load slot w)
  resolved-IsVerified (j, caps) start w slot e h =
      subst
        (λ j.
          Ensures (λ _ w'. IsVerified start w') (λ _. Unit)
            (apply_and_verify rnd int_of_text tolerance reader host timeout j gpu caps
              ControlFeature.profile_load slot w))
        (sym e) (apply_and_verify-IsVerified start w caps slot h)

  load_profile-Ensures :
      (profile_id : Value) (w : W)
      → Ensures
          (λ _ w'. IsLoaded profile_id w w')
          (λ _. Unit {0})
          (load_profile rnd int_of_text tolerance reader host timeout (some i) gpu profile_id w)
  unfolding load_profile
  load_profile-Ensures profile_id w =
      guard-Ensures (λ _ w'. IsLoaded profile_id w w') _
        (Ensures-or_raise _ _ (valid_id profile_id) ErrorCode.invalid_value _ w tt (λ n valid.
          Ensures-bind (λ s w1. reader w ≡ (ok s, w1)) _ (λ _. Unit)
            (read_snapshot rnd int_of_text tolerance reader host timeout) _ w
            (read_snapshot-reader w)
            (λ snapshot w1 read.
              Ensures-or_raise _ _ (find_slot n snapshot.slots) ErrorCode.invalid_value _ w1 tt
                (λ slot found.
                  Ensures-bind (λ ic w2. (ic.0 ≡ i) × Calls i host gpu w1 [] w2) _ (λ _. Unit)
                    (resolve_control rnd int_of_text tolerance reader host timeout (some i) gpu) _
                    w1 (resolve_control-IsWritten w1 w1 nothing_called)
                    (λ ic w2 (same, calls).
                      Ensures-weaken (λ _ w'. IsVerified w1 w') (λ _ w'. IsLoaded profile_id w w')
                        (λ _. Unit)
                        (apply_and_verify rnd int_of_text tolerance reader host timeout ic.0 gpu
                          ic.1 ControlFeature.profile_load slot w2)
                        (λ _ w' (applied, state, between, written, some_applied, back, there).
                          record {
                            number = n;
                            snapshot = snapshot;
                            slot = slot;
                            applied = applied;
                            state = state;
                            after_read = w1;
                            after_writes = between;
                            valid = valid;
                            read = read;
                            found = found;
                            written = written;
                            some_applied = some_applied;
                            read_back = back;
                            there = there;
                          })
                        (resolved-IsVerified ic w1 w2 slot same calls))))))

  -- Where `load_profile` returns a result: the argument was the number of a slot, from 1 to 5, and that
  -- slot was present in the snapshot that was read first; the calls from there on wrote a list of values,
  -- one at least, each with success, and no other; and then the last call read the tuning state, in which
  -- each value written is there at a distance that is not over the tolerance, where a distance that is
  -- no number counts as not over it.
  pub load_profile-IsLoaded :
      (profile_id : Value) (w w' : W) {r : ControlResult}
      → load_profile rnd int_of_text tolerance reader host timeout (some i) gpu profile_id w
        ≡ (ok r, w')
      → IsLoaded profile_id w w'
  load_profile-IsLoaded profile_id w w' e =
      subst (Ensures (λ _ w'. IsLoaded profile_id w w') (λ _. Unit)) e
        (load_profile-Ensures profile_id w)
