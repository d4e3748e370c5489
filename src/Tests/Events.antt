-- ===== src/Tests/Events.antt =====
-- Queues and streams at work.
use cyber_threat_intelligenc.Prelude.{ℕ, ◌+◌, ◌≤◌, All, ◌++◌, length, ◌≡◌, refl, List, [], ◌∷◌}
use cyber_threat_intelligenc.Events.{
  Frame, offer, Turn, published, asked, stream, connected, heartbeat, event, serve, next_frame,
}
use cyber_threat_intelligenc.Events.Laws.{
  offer-eq-newest, stream-ordered, IsSubsequence, IsLater, events,
}

offer-eq-newest_example : offer {A = ℕ} 3 (1 ∷ 2 ∷ 3 ∷ []) 4 ≡ 2 ∷ 3 ∷ 4 ∷ []
offer-eq-newest_example = offer-eq-newest 3 (1 ∷ 2 ∷ 3 ∷ []) 4

abbrev turns : List (Turn ℕ)
turns = asked ∷ published 1 ∷ published 2 ∷ published 3 ∷ asked ∷ asked ∷ []

streamed : (stream 2 turns).0 ≡ connected ∷ heartbeat ∷ event 2 ∷ event 3 ∷ []
unfolding stream serve offer next_frame
streamed = refl

stream-ordered_example :
    (frames : List (Frame ℕ)) × ((stream 2 turns).0 ≡ connected ∷ frames)
    × All IsLater frames
    × IsSubsequence (events frames ++ (stream 2 turns).1) (1 ∷ 2 ∷ 3 ∷ [])
    × (2 ≤ length (events frames) + length (stream 2 turns).1)
stream-ordered_example = stream-ordered 2 turns
