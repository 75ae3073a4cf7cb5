-- ===== src/Examples/Metering.antt =====
-- A minute of traffic.
use orchd.Prelude.{
  ℕ, ◌*◌, ◌%◌, ◌^◌, codes, text_eq, ◌≡◌, refl, inr, true, false, List, arith, none, some, [], ◌∷◌,
  replicate,
}
use orchd.Metering.Counters.{Counters, zero_counters, ◌⊕◌}
use orchd.Metering.Meter.{Meter, Bucket, new_meter, drain, request_counters, shard_count}
use orchd.Metering.Conserve.{total, sum_buckets, sum_conns, HasShards, drain_conserves}
use orchd.Metering.Writer.{
  Event, write_header, write, read_body, flush, serve, on_event, reported_status, begin, finish,
  final_status, body_read, written, total-finish,
}
use orchd.Metering.Reporter.{
  Config, Reporter, Target, Answer, collect, send, second, send_loop, send_round, aggregates, prune,
  pruned, is_past, is_waiting, accepted, note_target,
}
use orchd.Metering.Account.{IsPaced, IsSettled, IsSentOff, send-IsSentOff, send_ends}

new_meter-HasShards : HasShards new_meter
unfolding new_meter
new_meter-HasShards = refl

abbrev busy : Meter
busy = record {
  shards = replicate shard_count [];
  live =
      record { id = 1; workload = codes "w1"; project = codes "p1"; bytes_in = 3; bytes_out = 9 }
      ∷ [];
}

abbrev one_request : Counters
one_request = record zero_counters { requests = 1; bytes_in = 10; bytes_out = 20; s2xx = 1 }

drain_conserves_example :
    (sum_buckets (drain (some 600) 600 busy).0 ⊕ total (drain (some 600) 600 busy).1
      ≡ total busy ⊕ sum_conns busy.live)
    × (sum_conns (drain (some 600) 600 busy).1.live ≡ zero_counters)
drain_conserves_example = drain_conserves (some 600) 600 busy refl

abbrev exchange : List Event
exchange = write_header 103 ∷ read_body 4 ∷ write_header 404 ∷ flush ∷ write 9 ∷ []

total-finish_example :
    total (finish 600 (serve exchange (begin (codes "w1") (codes "p1"))) busy)
    ≡ total busy
      ⊕ request_counters
          (final_status exchange)
          (body_read exchange % 2 ^ 64)
          (written exchange % 2 ^ 64)
total-finish_example = total-finish 600 (codes "w1") (codes "p1") exchange busy refl refl

-- A header after a flush comes too late for the client, but is reported.
reported_late :
    reported_status (serve (flush ∷ write_header 404 ∷ []) (begin (codes "w1") (codes "p1"))) ≡ 404
unfolding reported_status serve on_event begin
reported_late = refl

seen_before : final_status (flush ∷ write_header 404 ∷ []) ≡ 200
seen_before = refl

abbrev bucket : Bucket
bucket = record { minute = 7; workload = codes "w1"; project = codes "p1"; counters = one_request }

abbrev config : Config
config = record { buffer = 3600 * second; max_pending = 2; resolve = λ project. none }

abbrev website : Target
website = record { url = codes "https://x"; header = []; value = [] }

abbrev idle : Reporter
idle = record {
  outbox = [];
  backoff = 0;
  next_try = 0;
  sent = 0;
  dropped = 0;
  last_err = [];
  last_sent = 0;
  last = [];
  last_url = [];
  resolved = [];
  minted = 0;
  posts = 0;
}

abbrev full : Reporter
full = collect (λ n. n ∷ []) config (bucket ∷ bucket ∷ bucket ∷ []) website (600 * second) idle

website_set : text_eq website.url (codes "") ≡ false
unfolding text_eq
website_set = refl

abbrev down : ℕ → Answer
down n = record { code = some 503; error = codes "503" }

abbrev up : ℕ → Answer
up n = record { code = some 202; error = [] }

-- Two aggregates wait, and are sent.
sent_two : (send up (λ n. 600 * second) false website full).sent ≡ 2
unfolding send send_loop send_round collect aggregates prune pruned is_past is_waiting accepted
    text_eq note_target
sent_two = refl

send-IsSentOff_example : IsSentOff full (send up (λ n. 600 * second) false website full)
send-IsSentOff_example = send-IsSentOff up (λ n. 600 * second) false website full

-- The clock is before the next try, but the send is forced.
abbrev early : Reporter
early = record full { backoff = 5 * second; next_try = 700 * second }

send_ends_example :
    IsSettled down (λ n. 600 * second) true early (send down (λ n. 600 * second) true website early)
    × IsPaced (send down (λ n. 600 * second) true website early)
send_ends_example =
    send_ends down (λ n. 600 * second) true website early website_set
      (inr (omega arith, omega arith))
