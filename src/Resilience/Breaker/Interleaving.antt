-- ===== src/Resilience/Breaker/Interleaving.antt =====
-- Any number of callers of one breaker. The lock makes the two halves of `call` atomic, and
-- between them calls come and go as the event loop decides.
use mathlib.Core.Path.{subst}
use cyber_threat_intelligenc.Prelude.{
  refl, ap, sym, ◌∙◌, ℕ, suc, ◌≤◌, ◌<◌, ◌≡◌, ◌≢◌, true, false, String, arith,
}
use cyber_threat_intelligenc.Resilience.Breaker.{
  CircuitBreaker, closed, half_open, fresh, can_attempt, Outcome, returned, raised, cancelled,
  settle, is_half_open, record_success, record_failure,
}

-- The breaker and the number of calls that await their `func`.
pub record World : Type 0 where
  pub breaker : CircuitBreaker
  pub in_flight : ℕ

pub data Step : World → World → Type 0 where
  enter :
      (w : World) (now : ℕ)
      → (can_attempt now w.breaker).0 ≡ true
      → Step w (record { breaker = (can_attempt now w.breaker).1; in_flight = suc w.in_flight })
  refuse :
      (w : World) (now : ℕ)
      → (can_attempt now w.breaker).0 ≡ false
      → Step w (record w { breaker = (can_attempt now w.breaker).1 })
  leave :
      (w : World) (n now : ℕ) (o : Outcome (Unit {0}) String)
      → w.in_flight ≡ suc n
      → Step w (record { breaker = settle now o w.breaker; in_flight = n })

pub data Reach (w : World) : World → Type 0 where
  here : Reach w w
  next : {u v : World} → Reach w u → Step u v → Reach w v

pub record IsConsistent (b : CircuitBreaker) : Type 0 where
  pub probe_iff_half : b.probe_in_flight ≡ is_half_open b.state
  pub closed_room : b.state ≡ closed → b.failures < b.failure_threshold
  pub open_full : b.state ≢ closed → b.failure_threshold ≤ b.failures
  pub some_room : 0 < b.failure_threshold

can_attempt-IsConsistent :
    (now : ℕ) (b : CircuitBreaker) → IsConsistent b → IsConsistent (can_attempt now b).1
unfolding can_attempt
can_attempt-IsConsistent now b c = ground (arith, c.closed_room, c.open_full)

settle-IsConsistent :
    (now : ℕ) (o : Outcome (Unit {0}) String) (b : CircuitBreaker)
    → IsConsistent b
    → IsConsistent (settle now o b)
unfolding settle record_success record_failure
settle-IsConsistent now (returned a) b c = ground (arith, c.closed_room, c.open_full)
settle-IsConsistent now (raised x) b c = ground (arith, c.closed_room, c.open_full)
settle-IsConsistent now cancelled b c = c

Step-IsConsistent : {u v : World} → Step u v → IsConsistent u.breaker → IsConsistent v.breaker
Step-IsConsistent (enter w now h) c = can_attempt-IsConsistent now w.breaker c
Step-IsConsistent (refuse w now h) c = can_attempt-IsConsistent now w.breaker c
Step-IsConsistent (leave w n now o h) c = settle-IsConsistent now o w.breaker c

Reach-IsConsistent : {u v : World} → IsConsistent u.breaker → Reach u v → IsConsistent v.breaker
Reach-IsConsistent c here = c
Reach-IsConsistent c (next r s) = Step-IsConsistent s (Reach-IsConsistent c r)

abbrev pub start : ℕ → ℕ → World
start threshold timeout = record { breaker = fresh threshold timeout; in_flight = 0 }

fresh-IsConsistent :
    (threshold timeout : ℕ) → 0 < threshold → IsConsistent (fresh threshold timeout)
fresh-IsConsistent threshold timeout h = ground arith

-- However the callers interleave, a new breaker with a positive threshold is closed exactly while
-- fewer failures than the threshold are counted, and a probe is marked exactly while it is half
-- open.
pub reachable-IsConsistent :
    (threshold timeout : ℕ) {w : World}
    → 0 < threshold
    → Reach (start threshold timeout) w
    → IsConsistent w.breaker
reachable-IsConsistent threshold timeout h r =
    Reach-IsConsistent (fresh-IsConsistent threshold timeout h) r

-- While the circuit is half open no further call is let through, at any time: at most one probe.
pub single_probe :
    (threshold timeout now : ℕ) {w : World}
    → 0 < threshold
    → Reach (start threshold timeout) w
    → w.breaker.state ≡ half_open
    → can_attempt now w.breaker ≡ (false, w.breaker)
unfolding can_attempt
single_probe threshold timeout now {w} h r e =
    ground (arith, (reachable-IsConsistent threshold timeout h r).probe_iff_half)

-- What a cancelled task leaves of the calls in flight.
abbrev pub cancelled_last : ℕ → World → World
cancelled_last now w =
    let ended : Outcome (Unit {0}) String = cancelled in
    record { breaker = settle now ended w.breaker; in_flight = 0 }

stuck :
    (now : ℕ) (b : CircuitBreaker)
    → b.state ≡ half_open
    → b.probe_in_flight ≡ true
    → can_attempt now b ≡ (false, b)
unfolding can_attempt
stuck now b half probing = ground arith

stuck-Step :
    {v u : World}
    → v.breaker.state ≡ half_open
    → v.breaker.probe_in_flight ≡ true
    → v.in_flight ≡ 0
    → Step v u
    → u ≡ v
stuck-Step half probing idle (enter w now h) =
    absurd (cc (rw (stuck now w.breaker half probing) at h))
stuck-Step half probing idle (refuse w now h) =
    ap (λ b. record w { breaker = b }) (ap (λ r. r.1) (stuck now w.breaker half probing))
stuck-Step half probing idle (leave w n now o h) = absurd (omega (arith, idle, h))

stuck-Reach :
    {v u : World}
    → v.breaker.state ≡ half_open
    → v.breaker.probe_in_flight ≡ true
    → v.in_flight ≡ 0
    → Reach v u
    → u ≡ v
stuck-Reach half probing idle here = refl
stuck-Reach {v} half probing idle (next {u = u'} r s) =
    let same = sym (stuck-Reach half probing idle r) in
    stuck-Step (subst (λ (x : World). x.breaker.state ≡ half_open) same half)
      (subst (λ (x : World). x.breaker.probe_in_flight ≡ true) same probing)
      (subst (λ (x : World). x.in_flight ≡ 0) same idle) s
    ∙ sym same

-- When a breaker that was new with a positive threshold is half open, and the one call in flight is
-- cancelled, the circuit never lets a call through again: however callers interleave from then on,
-- nothing changes any more, and a call is refused at any time. A cancellation is a step of the
-- callers.
pub cancelled_probe_wedges :
    (threshold timeout now later : ℕ) {w u : World}
    → 0 < threshold
    → Reach (start threshold timeout) w
    → w.breaker.state ≡ half_open
    → w.in_flight ≡ 1
    → Reach (cancelled_last now w) u
    → (Step w (cancelled_last now w))
      × (u ≡ cancelled_last now w)
      × (can_attempt later u.breaker ≡ (false, u.breaker))
unfolding settle
cancelled_probe_wedges threshold timeout now later {w} {u} positive reached half alone onward =
    let probing : w.breaker.probe_in_flight ≡ true =
      (reachable-IsConsistent threshold timeout positive reached).probe_iff_half
      ∙ ap is_half_open half in
    let same = stuck-Reach half probing refl onward in
    (
      leave w 0 now cancelled alone,
      same,
      ap (λ (x : World). can_attempt later x.breaker) same
          ∙ stuck later w.breaker half probing
          ∙ ap (λ (x : World). (false, x.breaker)) (sym same),
    )
