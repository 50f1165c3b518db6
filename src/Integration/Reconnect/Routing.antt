-- ===== src/Integration/Reconnect/Routing.antt =====
-- When `ReconnectingAfterburner` (afterburner/integration/reconnect.py) probes, and what it adopts.
use afterburner_gassist_plug.Base.{
  ℕ, ◌+◌, ◌≤◌, ◌<◌, ◌≡◌, ◌⊎◌, inl, inr, refl, Bool, true, false, Option, some, arith, if◌then◌else◌,
}
use afterburner_gassist_plug.Exec.{Exec, Result, ok, err, crash, ErrorCode}
use afterburner_gassist_plug.Models.{InterfaceStatus, is_ok}
use afterburner_gassist_plug.Interface.{Interface, Host}
use afterburner_gassist_plug.Integration.Reconnect.{
  Link, cooling, swapped, adopt, examine, probe, on_current, probe_if_down, retry, after_call,
  routed, route,
}

module _ {W : Type 0} (host : Host W) (factory : Exec W (Interface W)) (cooldown : ℕ)
    (on_swapped : Option (Interface W → Exec W (Unit {0}))) where
  -- A probe within the cooldown of the last one calls nothing: only the clock is read.
  pub probe_in_cooldown :
      (s : Link W) (last : ℕ)
      → s.last_attempt ≡ some last
      → (host.clock s.world).0 < last + cooldown
      → probe host factory cooldown on_swapped s ≡ record s { world = (host.clock s.world).1 }
  unfolding probe
  probe_in_cooldown s last h recent = ground arith

  -- A step of the link: the interface stays, or it is a made candidate that has just reported OK,
  -- after which the callback was given the interface that was in use.
  abbrev pub Swap : Link W → Link W → Type 0
  Swap s s' =
      ((s'.swaps ≡ s.swaps) × (s'.current ≡ s.current))
      ⊎ ((s'.swaps ≡ s.swaps + 1)
          × ((w : W) × (w' : W) × (status : InterfaceStatus) × (factory w).0 ≡ ok s'.current
              × (w'' : W) × (s'.current.detect w' ≡ (ok status, w''))
              × (s'.world ≡ swapped host factory cooldown on_swapped s.current w'')
              × (is_ok status ≡ true)))

  Swap-if :
      (s t u : Link W) (b : Bool)
      → (b ≡ true → Swap s t)
      → (b ≡ false → Swap s u)
      → Swap s (if b then t else u)
  Swap-if s t u true h k = h refl
  Swap-if s t u false h k = k refl

  adopt-Swap :
      (i : Interface W) (w w' : W) (r : Result InterfaceStatus) (s : Link W)
      → (factory w).0 ≡ ok i
      → i.detect w' ≡ (r, s.world)
      → Swap s (adopt host factory cooldown on_swapped i r s)
  adopt-Swap i w w' (ok status) s m d =
      Swap-if s _ _ (is_ok status) (λ k. inr (refl, (w, w', status, m, s.world, d, refl, k)))
        (λ k. inl (refl, refl))
  adopt-Swap i w w' (err e) s m d = inl (refl, refl)
  adopt-Swap i w w' crash s m d = inl (refl, refl)

  examine-Swap :
      (s : Link W) (w : W) (r : Result (Interface W))
      → (factory w).0 ≡ r
      → Swap s (examine host factory cooldown on_swapped r s)
  examine-Swap s w (ok i) m =
      adopt-Swap i w s.world (i.detect s.world).0 (record s { world = (i.detect s.world).1 }) m refl
  examine-Swap s w (err e) m = inl (refl, refl)
  examine-Swap s w crash m = inl (refl, refl)

  -- A probe keeps the interface in use, or replaces it by one that the factory made and whose own
  -- detection reported OK, after which the callback, if there is one, is called on the interface that
  -- was in use, as the last call of the probe; it never raises.
  pub probe-Swap : (s : Link W) → Swap s (probe host factory cooldown on_swapped s)
  unfolding probe
  probe-Swap s =
      Swap-if s _ _ (cooling host factory cooldown on_swapped s.last_attempt (host.clock s.world).0)
        (λ _. inl (refl, refl)) (λ _. examine-Swap _ (host.clock (host.clock s.world).1).1 _ refl)

  -- A step that probes at most `n` times and swaps at most once for each probe.
  abbrev pub Within : ℕ → Link W → Link W → Type 0
  Within n s s' = (s'.probes ≤ s.probes + n) × (s'.swaps + s.probes ≤ s.swaps + s'.probes)

  probe-Within : (s : Link W) → Within 1 s (probe host factory cooldown on_swapped s)
  unfolding probe
  probe-Within s = ground arith

  module _ {A : Type 0} (f : Interface W → Exec W A) where
    -- Where the interface in use reports OK and the call returns, the router adds nothing: no probe.
    pub route_healthy :
        (s : Link W) (status : InterfaceStatus) (w w' : W) (a : A)
        → s.current.detect s.world ≡ (ok status, w)
        → is_ok status ≡ true
        → f s.current w ≡ (ok a, w')
        → route host factory cooldown on_swapped f s ≡ (ok a, record s { world = w' })
    unfolding route
    route_healthy s status w w' a h k q = ground arith

    retry-Within :
        (e : ErrorCode) (o : Result InterfaceStatus × Link W)
        → Within 0 o.1 (retry host factory cooldown on_swapped f e o).1
    retry-Within e o = ground arith

    after_call-Within :
        (o : Result A × Link W) → Within 1 o.1 (after_call host factory cooldown on_swapped f o).1
    after_call-Within (ok a, s) = ground arith
    after_call-Within (err e, s) =
        let p = probe-Within s in
        let q = retry-Within e (
          on_current host factory cooldown on_swapped (λ i. i.detect)
            (probe host factory cooldown on_swapped s)) in
        ground arith
    after_call-Within (crash, s) = ground arith

    probe_if_down-Within :
        (o : Result InterfaceStatus × Link W)
        → Within 1 o.1 (probe_if_down host factory cooldown on_swapped o).1
    probe_if_down-Within (ok status, s) = let p = probe-Within s in ground arith
    probe_if_down-Within (err e, s) = ground arith
    probe_if_down-Within (crash, s) = ground arith

    routed-Within :
        (o : Result (Unit {0}) × Link W)
        → Within 1 o.1 (routed host factory cooldown on_swapped f o).1
    routed-Within (ok _, s) =
        let p = after_call-Within (on_current host factory cooldown on_swapped f s) in ground arith
    routed-Within (err e, s) = ground arith
    routed-Within (crash, s) = ground arith

    -- Routing a call probes at most twice, and swaps the interface at most once for each probe.
    pub route_bounded : (s : Link W) → Within 2 s (route host factory cooldown on_swapped f s).1
    unfolding route
    route_bounded s =
        let o = on_current host factory cooldown on_swapped (λ i. i.detect) s in
        let p = probe_if_down-Within o in
        let q = routed-Within (probe_if_down host factory cooldown on_swapped o) in omega arith
