-- ===== src/Events.antt =====
-- `EventBus` of app/core/events.py. A subscriber is a number, and its queue the list of what waits
-- in it, the oldest first. What an event holds does not matter here.
pub mod Laws
use cyber_threat_intelligenc.Prelude.{
  ℕ, ◌+◌, Bool, true, false, ◌&&◌, Option, none, some, List, [], ◌∷◌, ◌++◌, map, length, leb, ltb,
  if◌then◌else◌, nat_eq,
}
use cyber_threat_intelligenc.Prelude.Dict.{Dict, lookup, insert, erase}

-- `asyncio.Queue.full()`: a `maxsize` of 0 is no bound.
abbrev pub is_full : ℕ → ℕ → Bool
is_full maxsize size = ltb 0 maxsize && leb maxsize size

-- `_offer`: each turn of the loop that finds the queue full drops its oldest event. With nothing to
-- drop it gives up.
unfoldable pub offer {ℓ} : {A : Type ℓ} → ℕ → List A → A → List A
offer maxsize [] e = if is_full maxsize 0 then [] else e ∷ []
offer maxsize (x ∷ q) e =
    let rest = offer maxsize q e in
    if is_full maxsize (length (x ∷ q)) then rest else (x ∷ q) ++ e ∷ []

pub record EventBus (A : Type 0) : Type 0 where
  pub queue_size : ℕ
  pub subscribers : Dict ℕ (List A)

module _ {A : Type 0} where
  unfoldable pub offer_all : ℕ → A → Dict ℕ (List A) → Dict ℕ (List A)
  offer_all size e [] = []
  offer_all size e ((id, q) ∷ rest) = (id, offer size q e) ∷ offer_all size e rest

  unfoldable pub publish : A → EventBus A → EventBus A
  unfolding offer_all
  publish e bus = record bus { subscribers = offer_all bus.queue_size e bus.subscribers }

  -- The two ends of `subscribe`.
  unfoldable pub subscribe : ℕ → EventBus A → EventBus A
  subscribe id bus = record bus { subscribers = insert id [] bus.subscribers }

  unfoldable pub unsubscribe : ℕ → EventBus A → EventBus A
  unsubscribe id bus = record bus { subscribers = erase id bus.subscribers }

-- What `stream` yields to one client: `: connected`, `: heartbeat`, or an event.
pub data Frame (A : Type 0) : Type 0 where
  connected heartbeat : Frame A
  event : A → Frame A

-- The loop of `stream` over what happens to its queue: an event is published, or the generator is
-- asked for its next frame, which is a heartbeat if nothing arrives in time.
pub data Turn (A : Type 0) : Type 0 where
  published : A → Turn A
  asked : Turn A

unfoldable pub next_frame : {A : Type 0} → List A → Frame A × List A
next_frame [] = (heartbeat, [])
next_frame (e ∷ q) = (event e, q)

unfoldable pub serve : {A : Type 0} → ℕ → List (Turn A) → List A → List (Frame A) × List A
unfolding next_frame
serve size [] q = ([], q)
serve size (published e ∷ turns) q = serve size turns (offer size q e)
serve size (asked ∷ turns) q =
    let (frame, q') = next_frame q in
    let (frames, last) = serve size turns q' in (frame ∷ frames, last)

unfoldable pub stream : {A : Type 0} → ℕ → List (Turn A) → List (Frame A) × List A
unfolding serve
stream size turns = let (frames, last) = serve size turns [] in (connected ∷ frames, last)
