-- ===== src/Metering/Writer.antt =====
-- One metered request: Writer of orchestrator/internal/metering/writer.go. The wrapped
-- ResponseWriter and body answer each call with the number of bytes that they took.
use orchd.Prelude.{
  ℕ, ◌+◌, ◌<◌, ◌%◌, ◌^◌, Text, ◌≡◌, refl, ap, ◌∙◌, ◌&&◌, Option, none, some, List, [], ◌∷◌, arith,
  leb, ◌==◌, if◌then◌else◌, any, not, ◌||◌, Bool, true, false, false≢true,
}
use orchd.Metering.Counters.{add64, ◌⊕◌}
use orchd.Metering.Meter.{Conn, Meter, untrack, record_request, request_counters, unix_minute}
use orchd.Metering.Conserve.{total, total-add, HasShards}

pub record Writer : Type 0 where
  pub workload : Text
  pub project : Text
  pub status : ℕ
  pub out : ℕ
  pub body : ℕ
  pub conn : Option Conn

-- Begin
unfoldable pub begin : Text → Text → Writer
begin workload project = record {
  workload = workload;
  project = project;
  status = 0;
  out = 0;
  body = 0;
  conn = none;
}

-- What the handler does with the writer and the body, with the bytes that each call moved: WriteHeader,
-- Write, Read of the body, Flush or FlushError, and Hijack, with the connection that it counts from
-- then on. That the meter tracks this connection is `track` of Metering/Meter.
pub data Event : Type 0 where
  write_header : ℕ → Event
  write : ℕ → Event
  read_body : ℕ → Event
  flush : Event
  hijack : Conn → Event

unfoldable pub on_event : Event → Writer → Writer
on_event (write_header code) mw =
    if mw.status == 0 && leb 200 code then record mw { status = code } else mw
on_event (write n) mw = record mw {
  status = if mw.status == 0 then 200 else mw.status;
  out = add64 mw.out n;
}
on_event (read_body n) mw = record mw { body = add64 mw.body n }
on_event flush mw = mw
on_event (hijack c) mw = record mw {
  status = if mw.status == 0 then 101 else mw.status;
  conn = some c;
}

unfoldable pub serve : List Event → Writer → Writer
unfolding on_event
serve [] mw = mw
serve (e ∷ es) mw = serve es (on_event e mw)

-- The status that Finish reports: net/http's implicit 200 if nothing set one.
unfoldable pub reported_status : Writer → ℕ
reported_status mw = if mw.status == 0 then 200 else mw.status

-- release, once: an already released connection is not in the meter's set.
unfoldable pub release : ℕ → Option Conn → Meter → Meter
release now none m = m
release now (some c) m = if any (λ d. d.id == c.id) m.live then untrack now c m else m

unfoldable pub finish : ℕ → Writer → Meter → Meter
finish now mw m =
    record_request now mw.workload mw.project (reported_status mw) mw.body mw.out
      (release now mw.conn m)

-- The specification: what a client saw of the exchange. Informational headers before the final
-- status count for nothing, but 101 is final, and so does any header after the first write; a flush
-- sends the implicit 200.
abbrev pub final_status : List Event → ℕ
final_status [] = 200
final_status (write_header code ∷ es) =
    let rest = final_status es in if leb 200 code || code == 101 then code else rest
final_status (write n ∷ es) = 200
final_status (read_body n ∷ es) = final_status es
final_status (flush ∷ es) = 200
final_status (hijack c ∷ es) = 101

-- An exchange that is not hijacked, flushes nothing before its final header and sends no 101;
-- `sent` is whether that header is out.
abbrev pub is_plain : Bool → List Event → Bool
is_plain sent [] = true
is_plain sent (write_header code ∷ es) =
    (sent || not (code == 101)) && is_plain (sent || leb 200 code) es
is_plain sent (write n ∷ es) = is_plain true es
is_plain sent (read_body n ∷ es) = is_plain sent es
is_plain sent (flush ∷ es) = sent && is_plain sent es
is_plain sent (hijack c ∷ es) = false

abbrev pub written : List Event → ℕ
written [] = 0
written (write n ∷ es) = n + written es
written (_ ∷ es) = written es

abbrev pub body_read : List Event → ℕ
body_read [] = 0
body_read (read_body n ∷ es) = n + body_read es
body_read (_ ∷ es) = body_read es

conn-serve :
    (sent : Bool) (es : List Event) (mw : Writer)
    → is_plain sent es ≡ true
    → (serve es mw).conn ≡ mw.conn
unfolding serve
conn-serve sent [] mw h = refl
conn-serve sent (write_header code ∷ es) mw h =
    ground (arith, conn-serve (sent || leb 200 code) es (on_event (write_header code) mw), h)
conn-serve sent (write n ∷ es) mw h = conn-serve true es (on_event (write n) mw) h
conn-serve sent (read_body n ∷ es) mw h = conn-serve sent es (on_event (read_body n) mw) h
conn-serve sent (flush ∷ es) mw h = conn-serve sent es mw (ground (arith, h))
conn-serve sent (hijack c ∷ es) mw h = absurd (false≢true h)

serve_status :
    (es : List Event) (mw : Writer)
    → is_plain (not (mw.status == 0)) es ≡ true
    → reported_status (serve es mw) ≡ (if mw.status == 0 then final_status es else mw.status)
unfolding serve reported_status
serve_status [] mw h = refl
serve_status (write_header code ∷ es) mw h =
    ground (arith, serve_status es (on_event (write_header code) mw), h)
serve_status (write n ∷ es) mw h = ground (arith, serve_status es (on_event (write n) mw), h)
serve_status (read_body n ∷ es) mw h = serve_status es (on_event (read_body n) mw) h
serve_status (flush ∷ es) mw h = ground (arith, serve_status es mw, h)
serve_status (hijack c ∷ es) mw h = absurd (false≢true h)

out-serve :
    (es : List Event) (mw : Writer)
    → mw.out < 2 ^ 64
    → (serve es mw).out ≡ (mw.out + written es) % 2 ^ 64
unfolding serve
out-serve [] mw h = omega arith
out-serve (write_header code ∷ es) mw h =
    ground (arith, out-serve es (on_event (write_header code) mw))
out-serve (write n ∷ es) mw h = omega (arith, out-serve es (on_event (write n) mw) (omega arith))
out-serve (read_body n ∷ es) mw h = out-serve es (on_event (read_body n) mw) h
out-serve (flush ∷ es) mw h = out-serve es mw h
out-serve (hijack c ∷ es) mw h = out-serve es (on_event (hijack c) mw) h

body-serve :
    (es : List Event) (mw : Writer)
    → mw.body < 2 ^ 64
    → (serve es mw).body ≡ (mw.body + body_read es) % 2 ^ 64
unfolding serve
body-serve [] mw h = omega arith
body-serve (write_header code ∷ es) mw h =
    ground (arith, body-serve es (on_event (write_header code) mw))
body-serve (write n ∷ es) mw h = body-serve es (on_event (write n) mw) h
body-serve (read_body n ∷ es) mw h =
    omega (arith, body-serve es (on_event (read_body n) mw) (omega arith))
body-serve (flush ∷ es) mw h = body-serve es mw h
body-serve (hijack c ∷ es) mw h = body-serve es (on_event (hijack c) mw) h

-- In a meter with all its shards, a request that is begun, served by any calls and finished adds to
-- the meter one request of the status that its client saw, the bytes read from its body and the
-- bytes written to it, both modulo 2 ^ 64: of the requests that are not hijacked, flush nothing
-- before their final header and send no 101.
pub total-finish :
    (now : ℕ) (workload project : Text) (es : List Event) (m : Meter)
    → HasShards m
    → is_plain false es ≡ true
    → total (finish now (serve es (begin workload project)) m)
      ≡ total m ⊕ request_counters (final_status es) (body_read es % 2 ^ 64) (written es % 2 ^ 64)
unfolding finish release record_request begin
total-finish now workload project es m h plain =
    let start = begin workload project in
    let done = serve es start in
    let status : reported_status done ≡ final_status es = serve_status es start plain in
    let out : done.out ≡ written es % 2 ^ 64 = omega (arith, out-serve es start (omega arith)) in
    let body : done.body ≡ body_read es % 2 ^ 64 =
      omega (arith, body-serve es start (omega arith)) in
    let released = ap (λ c. release now c m) (conn-serve false es start plain) in
    ap
      (λ m'. total (
        record_request now done.workload done.project (reported_status done) done.body done.out m'))
      released
    ∙ ((total-add (unix_minute now) done.workload done.project _ m h).0 ∙ cc (status, out, body))
