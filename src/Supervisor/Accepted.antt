-- ===== src/Supervisor/Accepted.antt =====
-- The settings that `validateSupervisor` takes.
use opiumo.Number.{Number, nought}
use opiumo.Base.{
  List, Option, Text, [], arith, bind_ok, codes, false, none, ok, refl, some, true, ◌↔◌, ◌∷◌, ◌≡◌,
}
use opiumo.Supervisor.Settings.{
  RawSupervisor, check_command, check_window, positive, validate_supervisor,
}

abbrev pub IsCommand : Option (List Text) → Type 0
IsCommand (some (w ∷ ws)) = Unit
IsCommand command = ⊥

check_command-ok :
    (command : Option (List Text)) → (check_command command ≡ ok tt) ↔ IsCommand command
check_command-ok none = (λ h. cc, λ h. absurd h)
check_command-ok (some []) = (λ h. cc, λ h. absurd h)
check_command-ok (some (w ∷ ws)) = (λ h. tt, λ h. refl)

module _ {R : Type 0} ⦃n : Number R⦄ where
  -- A number above zero.
  abbrev pub IsPositive : Option R → Type 0
  IsPositive none = ⊥
  IsPositive (some v) = n.lt nought v ≡ true

  abbrev pub Exceeds : Option R → Option R → Type 0
  Exceeds (some window) (some interval) = n.le window interval ≡ false
  Exceeds window interval = ⊥

  positive-ok :
      (k : Text) (o : Option R) (v : R) → positive k o ≡ ok v → (o ≡ some v) × IsPositive o
  unfolding positive
  positive-ok k none v h = absurd (cc h)
  positive-ok k (some w) v h = (ground (arith, h), ground (arith, h))

  positive_of :
      (k : Text) (o : Option R) → IsPositive o → (v : R) × (o ≡ some v) × (positive k o ≡ ok v)
  unfolding positive
  positive_of k none h = absurd h
  positive_of k (some v) h = (v, refl, cc h)

  check_window-Exceeds :
      (o o' : Option R) (w i : R)
      → o ≡ some w
      → o' ≡ some i
      → (check_window w i ≡ ok tt) ↔ Exceeds o o'
  check_window-Exceeds none o' w i e k = absurd (cc e)
  check_window-Exceeds (some v) none w i e k = absurd (cc k)
  check_window-Exceeds (some v) (some j) w i e k =
      let same : n.le v j ≡ n.le w i = cc (e, k) in
      (λ h. ground (arith, h, same), λ h. ground (arith, h, same))

  -- Settings pass exactly if the five times are numbers above zero, the silence window exceeds the
  -- heartbeat's interval, and the command has at least one word.
  pub validate_supervisor_iff :
      (s : RawSupervisor R)
      → (validate_supervisor s ≡ ok tt) ↔ (
          IsPositive s.heartbeat_write_interval_ms
          × IsPositive s.ws_silence_window_ms
          × IsPositive s.check_interval_ms
          × IsPositive s.startup_grace_ms
          × IsPositive s.kill_grace_ms
          × Exceeds s.ws_silence_window_ms s.heartbeat_write_interval_ms
          × IsCommand s.start_command)
  unfolding validate_supervisor
  validate_supervisor_iff s = (
    λ h.
        let (i, hi, h₁) =
          bind_ok (positive (codes "heartbeatWriteIntervalMs") s.heartbeat_write_interval_ms) _ h in
        let (w, hw, h₂) =
          bind_ok (positive (codes "wsSilenceWindowMs") s.ws_silence_window_ms) _ h₁ in
        let (c, hc, h₃) = bind_ok (positive (codes "checkIntervalMs") s.check_interval_ms) _ h₂ in
        let (u, hu, h₄) = bind_ok (positive (codes "startupGraceMs") s.startup_grace_ms) _ h₃ in
        let (k, hk, h₅) = bind_ok (positive (codes "killGraceMs") s.kill_grace_ms) _ h₄ in
        let (x, hx, h₆) = bind_ok (check_window w i) _ h₅ in
        let (ei, pi) = positive-ok _ s.heartbeat_write_interval_ms i hi in
        let (ew, pw) = positive-ok _ s.ws_silence_window_ms w hw in
        (
          pi,
          pw,
          (positive-ok _ s.check_interval_ms c hc).1,
          (positive-ok _ s.startup_grace_ms u hu).1,
          (positive-ok _ s.kill_grace_ms k hk).1,
          (check_window-Exceeds _ _ w i ew ei).0 hx,
          (check_command-ok s.start_command).0 h₆,
        ),
    λ (pi, pw, pc, pu, pk, exceeds, command).
        let (i, ei, hi) = positive_of (codes "heartbeatWriteIntervalMs") _ pi in
        let (w, ew, hw) = positive_of (codes "wsSilenceWindowMs") _ pw in
        let (c, ec, hc) = positive_of (codes "checkIntervalMs") _ pc in
        let (u, eu, hu) = positive_of (codes "startupGraceMs") _ pu in
        let (k, ek, hk) = positive_of (codes "killGraceMs") _ pk in
        let hx = (check_window-Exceeds _ _ w i ew ei).1 exceeds in
        simp (hi, hw, hc, hu, hk, hx, (check_command-ok s.start_command).1 command),
  )
