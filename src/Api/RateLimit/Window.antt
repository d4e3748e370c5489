-- ===== src/Api/RateLimit/Window.antt =====
-- The limiter against a log of every admitted request.
use mathlib.Core.Path.{subst}
use cyber_threat_intelligenc.Prelude.{
  ℕ, ◌-◌, ◌≤◌, ◌≡◌, refl, sym, ◌∙◌, ◌&&◌, Bool, true, false, List, [], ◌∷◌, ◌++◌, arith, length,
  leb, ltb, count, if◌then◌else◌, not, ◌==◌, Bool-cases, inl, inr,
}
use cyber_threat_intelligenc.Prelude.Dict.{
  Dict, lookup, insert, keep_values, lookup-insert, NodupKeys, insert-NodupKeys, lookup-keep_values,
  keep_values-NodupKeys,
}
use cyber_threat_intelligenc.Prelude.Text.{Text, text_eq}
use cyber_threat_intelligenc.Api.RateLimit.{
  window, InMemoryRateLimiter, new_limiter, Reply, passed, limited, hits_or_new, trim, is_stale,
  maybe_sweep, admit,
}
use cyber_threat_intelligenc.Api.RateLimit.Laws.{
  is_recent, trim-count, IsOrdered, trim-length, trim-IsOrdered, append-IsOrdered, later-IsOrdered,
  count-append, stale-count,
}

-- The specification keeps every admitted request, and admits another one while fewer than the limit
-- of the client's lie within the window.
abbrev pub Log : Type 0
Log = List (Text × ℕ)

abbrev pub recent_of : ℕ → Text → Log → ℕ
recent_of now client log = count (λ (d, t). d == client && is_recent now t) log

unfoldable pub spec_step : ℕ → ℕ → Text → Log → Bool × Log
spec_step limit now client log =
    if leb limit (recent_of now client log) then (false, log) else (true, (client, now) ∷ log)

unfoldable pub spec_run : ℕ → List (ℕ × Text) → Log → List Bool
unfolding spec_step
spec_run limit [] log = []
spec_run limit ((now, client) ∷ rest) log =
    let (admitted, log') = spec_step limit now client log in admitted ∷ spec_run limit rest log'

abbrev pub is_passed : Reply → Bool
is_passed passed = true
is_passed (limited wait) = false

unfoldable pub run : List (ℕ × Text) → InMemoryRateLimiter → List Bool
run [] l = []
run ((now, client) ∷ rest) l = let (reply, l') = admit now client l in is_passed reply ∷ run rest l'

abbrev hits_of : Text → Dict Text (List ℕ) → List ℕ
hits_of client hits = hits_or_new (lookup client hits)

-- The bucket of a client tells what the log tells from now on.
abbrev Tells : ℕ → Text → Log → List ℕ → Type 0
Tells last client log b =
    IsOrdered last b
    × ((later : ℕ) → last ≤ later → count (is_recent later) b ≡ recent_of later client log)

abbrev Refines : ℕ → Log → Dict Text (List ℕ) → Type 0
Refines last log hits =
    NodupKeys hits × ((client : Text) → Tells last client log (hits_of client hits))

hits_of-insert :
    (c client : Text) (b : List ℕ) (hits : Dict Text (List ℕ))
    → hits_of c (insert client b hits) ≡ (if c == client then b else hits_of c hits)
hits_of-insert c client b hits = rw lookup-insert (ground arith)

swept : ℕ → List ℕ → List ℕ
swept now b = if is_stale now b then [] else b

hits_of-keep_values :
    (now : ℕ) (c : Text) (hits : Dict Text (List ℕ))
    → NodupKeys hits
    → hits_of c (keep_values (λ h. not (is_stale now h)) hits) ≡ swept now (hits_of c hits)
unfolding swept is_stale
hits_of-keep_values now c hits u =
    rw (lookup-keep_values (λ h. not (is_stale now h)) c hits u) (ground arith)

swept-Tells :
    (now : ℕ) (c : Text) (log : Log) (b : List ℕ)
    → Tells now c log b
    → Tells now c log (swept now b)
unfolding swept
swept-Tells now c log b (o, tells) = elim (Bool-cases (is_stale now b)) [
  | inl old ↦ rw old (tt, λ later le. sym (stale-count now now later b le o old) ∙ tells later le)
  | inr fresh ↦ rw fresh (o, tells)
]

maybe_sweep-Refines :
    (now : ℕ) (log : Log) (l : InMemoryRateLimiter)
    → Refines now log l.hits
    → Refines now log (maybe_sweep now l).hits
unfolding maybe_sweep
maybe_sweep-Refines now log l (u, tells) = elim (Bool-cases (ltb (now - l.last_sweep) window)) [
  | inl recent ↦ rw recent (u, tells)
  | inr due ↦ rw due (
    keep_values-NodupKeys (λ h. not (is_stale now h)) l.hits u,
    λ c.
        rw (hits_of-keep_values now c l.hits u)
          (swept-Tells now c log (hits_of c l.hits) (tells c)),
  )
]

-- What trimming and admitting does to the client's own bucket and to the others'.
trimmed-Tells :
    (last now : ℕ) (c : Text) (log : Log) (b : List ℕ)
    → last ≤ now
    → Tells last c log b
    → Tells now c log (trim now b)
trimmed-Tells last now c log b le (o, tells) = (
  later-IsOrdered last now (trim now b) le (trim-IsOrdered last now b o),
  λ later h. trim-count now later b h ∙ tells later (omega (arith, h, le)),
)

later-Tells :
    (last now : ℕ) (c : Text) (log : Log) (b : List ℕ)
    → last ≤ now
    → Tells last c log b
    → Tells now c log b
later-Tells last now c log b le (o, tells) =
    (later-IsOrdered last now b le o, λ later h. tells later (omega (arith, h, le)))

logged-Tells :
    (now : ℕ) (c : Text) (log : Log) (b : List ℕ)
    → Tells now c log b
    → Tells now c ((c, now) ∷ log) (b ++ now ∷ [])
logged-Tells now c log b (o, tells) = (
  append-IsOrdered now now b (omega arith) o,
  λ later h. count-append (is_recent later) b now ∙ ground (arith, tells later h),
)

other-Tells :
    (now : ℕ) (c client : Text) (log : Log) (b : List ℕ)
    → (client == c) ≡ false
    → Tells now c log b
    → Tells now c ((client, now) ∷ log) b
other-Tells now c client log b ne (o, tells) = (o, λ later h. ground (arith, ne, tells later h))

key-eq : (c client : Text) → (c == client) ≡ true → c ≡ client
key-eq c client h = ground (arith, h)

key-ne : (c client : Text) → (c == client) ≡ false → (client == c) ≡ false
key-ne c client h = ground (arith, h)

refused-Refines :
    (last now : ℕ) (client : Text) (log : Log) (hits : Dict Text (List ℕ))
    → last ≤ now
    → Refines last log hits
    → Refines now log (insert client (trim now (hits_of client hits)) hits)
refused-Refines last now client log hits le (u, tells) = (
  insert-NodupKeys client _ hits u,
  λ c. elim (Bool-cases (c == client)) [
    | inl same ↦
        rw (hits_of-insert c client (trim now (hits_of client hits)) hits, same)
          (trimmed-Tells last now c log (hits_of client hits) le
            (rw (key-eq c client same) (tells client)))
    | inr other ↦
        rw (hits_of-insert c client (trim now (hits_of client hits)) hits, other)
          (later-Tells last now c log (hits_of c hits) le (tells c))
  ],
)

admitted-Refines :
    (last now : ℕ) (client : Text) (log : Log) (hits : Dict Text (List ℕ))
    → last ≤ now
    → Refines last log hits
    → Refines now
        ((client, now) ∷ log)
        (insert client (trim now (hits_of client hits) ++ now ∷ []) hits)
admitted-Refines last now client log hits le (u, tells) =
    let b = trim now (hits_of client hits) ++ now ∷ [] in
    (
      insert-NodupKeys client _ hits u,
      λ c. elim (Bool-cases (c == client)) [
        | inl same ↦
            rw (hits_of-insert c client b hits, same)
              (subst (λ d. Tells now d ((client, now) ∷ log) b) (sym (key-eq c client same))
                (logged-Tells now client log (trim now (hits_of client hits))
                  (trimmed-Tells last now client log (hits_of client hits) le (tells client))))
        | inr other ↦
            rw (hits_of-insert c client b hits, other)
              (other-Tells now c client log (hits_of c hits) (key-ne c client other)
                (later-Tells last now c log (hits_of c hits) le (tells c)))
      ],
    )

-- The limiter's test is the specification's.
same_test :
    (last now : ℕ) (client : Text) (log : Log) (hits : Dict Text (List ℕ))
    → last ≤ now
    → Refines last log hits
    → length (trim now (hits_of client hits)) ≡ recent_of now client log
same_test last now client log hits le (u, tells) =
    trim-length last now (hits_of client hits) (tells client).0 ∙ (tells client).1 now le

admit-limit :
    (now : ℕ) (client : Text) (l : InMemoryRateLimiter) → (admit now client l).1.limit ≡ l.limit
unfolding admit maybe_sweep
admit-limit now client l = ground arith

admit-Refines :
    (last now : ℕ) (client : Text) (log : Log) (l : InMemoryRateLimiter)
    → last ≤ now
    → Refines last log l.hits
    → (is_passed (admit now client l).0 ≡ (spec_step l.limit now client log).0)
      × Refines now (spec_step l.limit now client log).1 (admit now client l).1.hits
unfolding admit spec_step
admit-Refines last now client log l le r =
    let test = same_test last now client log l.hits le r in
    elim (Bool-cases (leb l.limit (recent_of now client log))) [
      | inl full ↦ rw (test, full) (refl, refused-Refines last now client log l.hits le r)
      | inr room ↦
          rw (test, room)
            (
              refl,
              maybe_sweep-Refines now ((client, now) ∷ log)
                  (record l {
                    hits = insert client (trim now (hits_of client l.hits) ++ now ∷ []) l.hits;
                  })
                  (admitted-Refines last now client log l.hits le r),
            )
    ]

-- The clock does not go back.
abbrev pub InOrder : ℕ → List (ℕ × Text) → Type 0
InOrder last [] = Unit
InOrder last ((now, client) ∷ rest) = (last ≤ now) × InOrder now rest

run-spec_run :
    (last : ℕ) (requests : List (ℕ × Text)) (log : Log) (l : InMemoryRateLimiter)
    → InOrder last requests
    → Refines last log l.hits
    → run requests l ≡ spec_run l.limit requests log
unfolding run spec_run
run-spec_run last [] log l o r = refl
run-spec_run last ((now, client) ∷ rest) log l (le, o) r =
    let (same, next) = admit-Refines last now client log l le r in
    rw
      (
        same,
        run-spec_run now rest (spec_step l.limit now client log).1 (admit now client l).1 o next,
        admit-limit,
      )
      refl

-- Whatever requests come at whatever times, in the order of the clock, the limiter admits exactly
-- those that find fewer than the limit of their client's admitted requests within the last minute:
-- trimming and sweeping the buckets never change an answer, and clients do not affect each other.
pub sliding_window :
    (limit : ℕ) (requests : List (ℕ × Text))
    → InOrder 0 requests
    → run requests (new_limiter limit) ≡ spec_run limit requests []
unfolding lookup
sliding_window limit requests o =
    run-spec_run 0 requests [] (new_limiter limit) o (tt, λ c. (tt, λ later le. refl))
