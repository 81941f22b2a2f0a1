-- ===== src/Sdo/Server/Effects/Queue.antt =====
-- What a session leaves in the event queue (canopen-core/src/sdo/server.rs, `push_event`).
use yacob.Base.{
  ℕ, zero, suc, ◌-◌, ◌≤◌, ◌<◌, ◌≡◌, refl, sym, ap, ◌∙◌, arith, List, [], ◌∷◌, ◌++◌, length, drop,
  Option, none, some, Bool-cases, inl, inr, leb, length-drop, length-append, append-nil,
}
use yacob.Base.Bytes.{Bytes8}
use yacob.Sdo.Od.{ObjectDictionary, OdEvent, sdo}
use yacob.Sdo.Validate.{SdoContext}
use yacob.Sdo.Server.State.{SdoServer, push_event, take_committed_write}
use yacob.Sdo.Server.Process.{process_with_context}
use yacob.Sdo.Server.Effects.{kept, refused, wrote}
use yacob.Sdo.Server.Effects.Requests.{process_with_context-Effect}

-- The last entries of a list, as many as fit.
abbrev pub newest : ℕ → List OdEvent → List OdEvent
newest capacity log = drop (length log - capacity) log

drop-appended :
    {A : Type 0} (k : ℕ) (xs ys : List A) → k ≤ length xs → drop k (xs ++ ys) ≡ drop k xs ++ ys
drop-appended zero xs ys h = refl
drop-appended (suc k) [] ys h = absurd (omega arith)
drop-appended (suc k) (x ∷ xs) ys h = drop-appended k xs ys (omega arith)

drop_further : {A : Type 0} (k : ℕ) (xs : List A) → drop 1 (drop k xs) ≡ drop (suc k) xs
drop_further zero [] = refl
drop_further zero (x ∷ xs) = refl
drop_further (suc k) [] = refl
drop_further (suc k) (x ∷ xs) = drop_further k xs

drop_whole : {A : Type 0} (k : ℕ) (xs : List A) → length xs ≤ k → drop k xs ≡ []
drop_whole zero [] h = refl
drop_whole zero (x ∷ xs) h = absurd (omega arith)
drop_whole (suc k) [] h = refl
drop_whole (suc k) (x ∷ xs) h = drop_whole k xs (omega arith)

push_event-room :
    (capacity : ℕ) (q : List OdEvent) (e : OdEvent)
    → length q < capacity
    → push_event capacity q e ≡ q ++ e ∷ []
unfolding push_event
push_event-room capacity q e h = ground arith

push_event-full :
    (room : ℕ) (q : List OdEvent) (e : OdEvent)
    → length q ≡ suc room
    → push_event (suc room) q e ≡ drop 1 q ++ e ∷ []
unfolding push_event
push_event-full room q e h = ground (arith, h, length-drop 1 q)

push_event-none : (q : List OdEvent) (e : OdEvent) → q ≡ [] → push_event 0 q e ≡ []
unfolding push_event
push_event-none q e h = rw h refl

-- A push onto the newest entries gives the newest entries.
push_event-newest :
    (capacity : ℕ) (log : List OdEvent) (e : OdEvent)
    → push_event capacity (newest capacity log) e ≡ newest capacity (log ++ e ∷ [])
push_event-newest zero log e =
    push_event-none (newest 0 log) e (drop_whole (length log - 0) log (omega arith))
    ∙ sym (drop_whole (length (log ++ e ∷ []) - 0) (log ++ e ∷ []) (omega arith))
push_event-newest (suc room) log e = elim (Bool-cases (leb (suc room) (length log))) [
  | inl full ↦
      let over = length log - suc room in
      let size : length (drop over log) ≡ suc room = ground (arith, length-drop over log, full) in
      let more : length (log ++ e ∷ []) - suc room ≡ suc over =
        ground (arith, length-append log (e ∷ []), full) in
      let inside : suc over ≤ length log = ground (arith, full) in
      push_event-full room (drop over log) e size
      ∙ ap (λ (q : List OdEvent). q ++ e ∷ []) (drop_further over log)
      ∙ sym (drop-appended (suc over) log (e ∷ []) inside)
      ∙ ap (λ (k : ℕ). drop k (log ++ e ∷ [])) (sym more)
  | inr room_left ↦
      let all : length log - suc room ≡ 0 = ground (arith, room_left) in
      let all' : length (log ++ e ∷ []) - suc room ≡ 0 =
        ground (arith, length-append log (e ∷ []), room_left) in
      ap (λ (k : ℕ). push_event (suc room) (drop k log) e) all
      ∙ push_event-room (suc room) log e (ground (arith, room_left))
      ∙ ap (λ (k : ℕ). drop k (log ++ e ∷ [])) (sym all')
]

-- One request after the other, and between them the node takes the committed write. The events
-- of the committed writes are logged.
abbrev pub event_of : Option (ℕ × ℕ) → List OdEvent
event_of none = []
event_of (some c) = record { index = c.0; subindex = c.1; source = sdo } ∷ []

module _ {O : Type 0} (dict : ObjectDictionary O) (capacity : ℕ) where
  unfoldable pub serve_requests :
      List (Bytes8 × SdoContext)
      → SdoServer
      → O
      → List OdEvent
      → List OdEvent
      → List OdEvent × List OdEvent
  serve_requests [] s od events log = (events, log)
  serve_requests ((request, ctx) ∷ rest) s od events log =
      let o = process_with_context dict capacity s request od events ctx in
      let (committed, s') = take_committed_write o.server in
      serve_requests rest s' o.od o.events (log ++ event_of committed)

  -- One request keeps the queue at the newest entries of the log.
  request-newest :
      (request : Bytes8) (ctx : SdoContext) (s : SdoServer) (od : O) (events log : List OdEvent)
      → s.committed_write ≡ none
      → events ≡ newest capacity log
      → let o = process_with_context dict capacity s request od events ctx in
        o.events ≡ newest capacity (log ++ event_of o.server.committed_write)
  request-newest request ctx s od events log idle same =
      elim (process_with_context-Effect dict capacity s request od events ctx) [
        | kept a b c ↦ rw (b, c, idle, append-nil log) same
        | refused index subindex bytes e v w a b c ↦ rw (a, b, idle, append-nil log) same
        | wrote index subindex bytes v w a b c ↦
            rw (a, b, same)
              (push_event-newest capacity log
                (record { index = index; subindex = subindex; source = sdo }))
      ]

  serve_requests-newest_from :
      (requests : List (Bytes8 × SdoContext)) (s : SdoServer) (od : O) (events log : List OdEvent)
      → s.committed_write ≡ none
      → events ≡ newest capacity log
      → let (queue, total) = serve_requests requests s od events log in
        queue ≡ newest capacity total
  unfolding serve_requests take_committed_write
  serve_requests-newest_from [] s od events log idle same = same
  serve_requests-newest_from ((request, ctx) ∷ rest) s od events log idle same =
      let o = process_with_context dict capacity s request od events ctx in
      serve_requests-newest_from rest (record (o.server) { committed_write = none }) o.od o.events
        (log ++ event_of o.server.committed_write) refl
        (request-newest request ctx s od events log idle same)

  -- After any sequence of requests, between which the node takes the committed write, the queue
  -- holds the newest events, as many as it has room for: of the events that were in it, followed
  -- by one for each committed write, in the order of the writes.
  pub serve_requests-newest :
      (requests : List (Bytes8 × SdoContext)) (s : SdoServer) (od : O) (events : List OdEvent)
      → s.committed_write ≡ none
      → length events ≤ capacity
      → let (queue, log) = serve_requests requests s od events events in queue ≡ newest capacity log
  serve_requests-newest requests s od events idle fits =
      let none_over : 0 ≡ length events - capacity = omega (arith, fits) in
      serve_requests-newest_from requests s od events events idle
        (ap (λ (k : ℕ). drop k events) none_over)
