-- ===== src/Proxy.antt =====
-- DisaggregatedProxy of src/kvbench/servers/proxy.py. A handler runs from one await to the next
-- without interruption, so each such segment is a function on the state; requests interleave at
-- the awaits. A server is named by its place in its list. Wall-clock stamps are left out, and the
-- elapsed time of a request is what the clock reports.
pub mod Select
pub mod Fair
pub mod Connections
pub mod Consistent
pub mod Prefilled
pub mod Ended
pub mod Requests
pub mod Health
mod Examples
use llm_kv_passthrough.Prelude.{
  ℕ, zero, suc, ◌+◌, ◌-◌, ◌/◌, ◌%◌, max, Bool, true, false, ◌||◌, ◌&&◌, Option, none, some, List,
  [], ◌∷◌, ◌++◌, map, length, get_elem?, get_or, set, modify, remove_at, ltb, ◌==◌, if◌then◌else◌,
  Text,
}

pub data Strategy : Type 0 where
  round_robin least_connections random : Strategy

pub record ServerEndpoint : Type 0 where
  pub url : Text
  pub healthy : Bool
  pub active_connections : ℕ
  pub total_requests : ℕ

-- ServerEndpoint(url=url)
abbrev pub endpoint : Text → ServerEndpoint
endpoint url = record { url = url; healthy = true; active_connections = 0; total_requests = 0 }

pub record ProxyStats : Type 0 where
  pub requests_total : ℕ
  pub requests_success : ℕ
  pub requests_failed : ℕ
  pub prefill_requests : ℕ
  pub decode_requests : ℕ
  pub total_latency : ℕ

-- The indices of the healthy servers, in order.
healthy_from : ℕ → List ServerEndpoint → List ℕ
healthy_from i [] = []
healthy_from i (s ∷ ss) = let rest = healthy_from (i + 1) ss in if s.healthy then i ∷ rest else rest

unfoldable pub healthy_servers : List ServerEndpoint → List ℕ
unfolding healthy_from
healthy_servers = healthy_from 0

abbrev pub connections : List ServerEndpoint → ℕ → ℕ
connections servers i = elim (get_elem? servers i) [ none ↦ 0 | some s ↦ s.active_connections ]

-- min(..., key=active_connections): the first of the least.
least : List ServerEndpoint → ℕ → List ℕ → ℕ
least servers best [] = best
least servers best (i ∷ is) =
    least servers (if ltb (connections servers i) (connections servers best) then i else best) is

-- _select_prefill_server and _select_decode_server over their list and round-robin counter;
-- `choice n` is the place that random.choice picks in a list of n.
choose : (ℕ → ℕ) → Strategy → List ServerEndpoint → ℕ → List ℕ → Option ℕ × ℕ
unfolding least
choose choice strategy servers index [] = (none, index)
choose choice round_robin servers index (h ∷ hs) =
    (get_elem? (h ∷ hs) (index % length (h ∷ hs)), index + 1)
choose choice least_connections servers index (h ∷ hs) = (some (least servers h hs), index)
choose choice random servers index (h ∷ hs) = (get_elem? (h ∷ hs) (choice (length (h ∷ hs))), index)

pub select : (ℕ → ℕ) → Strategy → List ServerEndpoint → ℕ → Option ℕ × ℕ
unfolding choose healthy_servers
select choice strategy servers index =
    choose choice strategy servers index (healthy_servers servers)

-- A request between two segments: waiting for its prefill, or for that many more tokens. A request
-- with a stream waits too where it yields: an error (`refused` before it is counted, `reporting`
-- after), the first chunk, a token, the last chunk and the end mark. `orphaned` is a stream of tokens
-- that is left suspended, with its connection, when its request has ended at a token.
pub data Phase : Type 0 where
  prefilling stream_prefilling stream_starting : (server max_tokens : ℕ) → Phase
  decoding stream_sleeping stream_sent : (server left : ℕ) → Phase
  orphaned : (server : ℕ) → Phase
  refused ending finishing reporting : Phase

-- The proxy, the requests that wait at an await, and how many were cancelled there (a count that
-- the code does not keep).
pub record Proxy : Type 0 where
  pub strategy : Strategy
  pub prefill_servers : List ServerEndpoint
  pub decode_servers : List ServerEndpoint
  pub prefill_index : ℕ
  pub decode_index : ℕ
  pub stats : ProxyStats
  pub waiting : List Phase
  pub cancelled : ℕ

-- request.max_tokens or 100
unfoldable pub max_tokens_of : Option ℕ → ℕ
max_tokens_of none = 100
max_tokens_of (some zero) = 100
max_tokens_of (some (suc n)) = suc n

pub open_connection : ServerEndpoint → ServerEndpoint
open_connection s = record s { active_connections = s.active_connections + 1 }

pub close_connection : ServerEndpoint → ServerEndpoint
close_connection s = record s { active_connections = s.active_connections - 1 }

-- The end of a phase that ran to its end: the request is counted and the connection closed.
pub complete : ServerEndpoint → ServerEndpoint
complete s = record s {
  active_connections = s.active_connections - 1;
  total_requests = s.total_requests + 1;
}

abbrev count_failed : Proxy → Proxy
count_failed p = record p {
  stats = record p.stats { requests_failed = p.stats.requests_failed + 1 };
}

-- The prefill phase starts on the selected server; without one the request fails at once.
start_prefill : Option ℕ → ℕ → Proxy → Proxy
unfolding open_connection
start_prefill none max_tokens p = count_failed p
start_prefill (some i) max_tokens p = record p {
  prefill_servers = modify i open_connection p.prefill_servers;
  waiting = p.waiting ++ prefilling i max_tokens ∷ [];
}

-- A request arrives: it is counted, and a prefill server is selected.
pub arrive : (ℕ → ℕ) → Option ℕ → Proxy → Proxy
unfolding start_prefill select max_tokens_of
arrive choice max_tokens p =
    let selected = select choice p.strategy p.prefill_servers p.prefill_index in
    start_prefill selected.0 (max_tokens_of max_tokens) (record p {
      prefill_index = selected.1;
      stats = record p.stats { requests_total = p.stats.requests_total + 1 };
    })

-- The decode phase of request k starts on the selected server; without one the request fails.
start_decode : ℕ → Option ℕ → ℕ → Proxy → Proxy
unfolding open_connection
start_decode k none max_tokens p = count_failed (record p { waiting = remove_at k p.waiting })
start_decode k (some j) max_tokens p = record p {
  decode_servers = modify j open_connection p.decode_servers;
  waiting = set p.waiting k (decoding j max_tokens);
}

-- The prefill of request k is done: its server is let go, and a decode server is selected.
pub prefilled : (ℕ → ℕ) → ℕ → ℕ → ℕ → Proxy → Proxy
unfolding start_decode complete select
prefilled choice k i max_tokens p =
    let selected = select choice p.strategy p.decode_servers p.decode_index in
    start_decode k selected.0 max_tokens (record p {
      prefill_servers = modify i complete p.prefill_servers;
      decode_index = selected.1;
      stats = record p.stats { prefill_requests = p.stats.prefill_requests + 1 };
    })

-- The sleep of one token of request k is over: the last one ends the request with success.
pub decoded : ℕ → ℕ → ℕ → ℕ → Proxy → Proxy
unfolding complete
decoded elapsed k j zero p = p
decoded elapsed k j (suc zero) p = record p {
  decode_servers = modify j complete p.decode_servers;
  waiting = remove_at k p.waiting;
  stats = record p.stats {
    decode_requests = p.stats.decode_requests + 1;
    total_latency = p.stats.total_latency + elapsed;
    requests_success = p.stats.requests_success + 1;
  };
}
decoded elapsed k j (suc (suc left)) p = record p {
  waiting = set p.waiting k (decoding j (suc left));
}

-- chat_completions_stream starts its prefill; without a server it yields an error.
start_stream : Option ℕ → ℕ → Proxy → Proxy
unfolding open_connection
start_stream none max_tokens p = record p { waiting = p.waiting ++ refused ∷ [] }
start_stream (some i) max_tokens p = record p {
  prefill_servers = modify i open_connection p.prefill_servers;
  waiting = p.waiting ++ stream_prefilling i max_tokens ∷ [];
}

pub arrive_stream : (ℕ → ℕ) → Option ℕ → Proxy → Proxy
unfolding start_stream select max_tokens_of
arrive_stream choice max_tokens p =
    let selected = select choice p.strategy p.prefill_servers p.prefill_index in
    start_stream selected.0 (max_tokens_of max_tokens) (record p {
      prefill_index = selected.1;
      stats = record p.stats { requests_total = p.stats.requests_total + 1 };
    })

-- What the stream yields when its prefill is done.
first_chunk : ℕ → Option ℕ → Phase
first_chunk max_tokens none = refused
first_chunk max_tokens (some j) = stream_starting j max_tokens

pub stream_prefilled : (ℕ → ℕ) → ℕ → ℕ → ℕ → Proxy → Proxy
unfolding first_chunk complete select
stream_prefilled choice k i max_tokens p =
    let selected = select choice p.strategy p.decode_servers p.decode_index in
    record p {
      prefill_servers = modify i complete p.prefill_servers;
      decode_index = selected.1;
      stats = record p.stats { prefill_requests = p.stats.prefill_requests + 1 };
      waiting = set p.waiting k (first_chunk max_tokens selected.0);
    }

-- The sleep of a token is over: it is yielded.
token_due : ℕ → ℕ → ℕ → Proxy → Proxy
token_due k j zero p = p
token_due k j (suc left) p = record p { waiting = set p.waiting k (stream_sent j left) }

-- The client asks for more after a token: after the last one the connection is let go, and the
-- last chunk is yielded.
after_token : ℕ → ℕ → ℕ → Proxy → Proxy
unfolding complete
after_token k j zero p = record p {
  decode_servers = modify j complete p.decode_servers;
  waiting = set p.waiting k ending;
  stats = record p.stats { decode_requests = p.stats.decode_requests + 1 };
}
after_token k j (suc left) p = record p { waiting = set p.waiting k (stream_sleeping j (suc left)) }

finish_stream : ℕ → ℕ → Proxy → Proxy
finish_stream elapsed k p = record p {
  waiting = remove_at k p.waiting;
  stats = record p.stats {
    total_latency = p.stats.total_latency + elapsed;
    requests_success = p.stats.requests_success + 1;
  };
}

-- The `finally` clause of a phase lets its server go.
release : Phase → Proxy → Proxy
unfolding close_connection
release (prefilling i max_tokens) p = record p {
  prefill_servers = modify i close_connection p.prefill_servers;
}
release (stream_prefilling i max_tokens) p = record p {
  prefill_servers = modify i close_connection p.prefill_servers;
}
release (decoding j left) p = record p {
  decode_servers = modify j close_connection p.decode_servers;
}
release (stream_sleeping j left) p = record p {
  decode_servers = modify j close_connection p.decode_servers;
}
release (orphaned j) p = record p { decode_servers = modify j close_connection p.decode_servers }
release phase p = p

-- Request k ends in its phase.
pub leave : ℕ → Phase → Proxy → Proxy
unfolding release
leave k phase p = record (release phase p) { waiting = remove_at k p.waiting }

-- A request goes on from the phase in which it waits.
resume_from : (ℕ → ℕ) → ℕ → ℕ → Option Phase → Proxy → Proxy
unfolding prefilled decoded stream_prefilled token_due after_token finish_stream leave
    open_connection
resume_from choice elapsed k none p = p
resume_from choice elapsed k (some (prefilling i max_tokens)) p = prefilled choice k i max_tokens p
resume_from choice elapsed k (some (decoding j left)) p = decoded elapsed k j left p
resume_from choice elapsed k (some (stream_prefilling i max_tokens)) p =
    stream_prefilled choice k i max_tokens p
resume_from choice elapsed k (some (stream_starting j max_tokens)) p = record p {
  decode_servers = modify j open_connection p.decode_servers;
  waiting = set p.waiting k (stream_sleeping j max_tokens);
}
resume_from choice elapsed k (some (stream_sleeping j left)) p = token_due k j left p
resume_from choice elapsed k (some (stream_sent j left)) p = after_token k j left p
resume_from choice elapsed k (some refused) p = count_failed (leave k refused p)
resume_from choice elapsed k (some ending) p = record p { waiting = set p.waiting k finishing }
resume_from choice elapsed k (some finishing) p = finish_stream elapsed k p
resume_from choice elapsed k (some reporting) p = leave k reporting p
resume_from choice elapsed k (some (orphaned j)) p = leave k (orphaned j) p

pub resume : (ℕ → ℕ) → ℕ → ℕ → Proxy → Proxy
unfolding resume_from
resume choice elapsed k p = resume_from choice elapsed k (get_elem? p.waiting k) p

-- A stream counts its failure and yields an error.
report : ℕ → Phase → Proxy → Proxy
unfolding release
report k phase p = count_failed (record (release phase p) { waiting = set p.waiting k reporting })

pub fail_from : ℕ → Option Phase → Proxy → Proxy
unfolding leave report
fail_from k none p = p
fail_from k (some (prefilling i max_tokens)) p = count_failed (leave k (prefilling i max_tokens) p)
fail_from k (some (decoding j left)) p = count_failed (leave k (decoding j left) p)
fail_from k (some reporting) p = leave k reporting p
fail_from k (some (orphaned j)) p = leave k (orphaned j) p
fail_from k (some (stream_sent j left)) p =
    count_failed (record p { waiting = set p.waiting k (orphaned j) ++ reporting ∷ [] })
fail_from k (some phase) p = report k phase p

-- An exception where request k waits: caught, and counted as a failure, which a stream reports.
pub fail : ℕ → Proxy → Proxy
unfolding fail_from
fail k p = fail_from k (get_elem? p.waiting k) p

pub cancel_from : ℕ → Option Phase → Proxy → Proxy
unfolding leave
cancel_from k none p = p
cancel_from k (some reporting) p = leave k reporting p
cancel_from k (some (orphaned j)) p = leave k (orphaned j) p
cancel_from k (some (stream_sent j left)) p = record p {
  waiting = set p.waiting k (orphaned j);
  cancelled = p.cancelled + 1;
}
cancel_from k (some phase) p = leave k phase (record p { cancelled = p.cancelled + 1 })

-- Cancellation where request k waits, or its client leaves the stream: no Exception, so only the
-- `finally` clauses run, that of a suspended stream of tokens only when it is closed later.
pub cancel : ℕ → Proxy → Proxy
unfolding cancel_from
cancel k p = cancel_from k (get_elem? p.waiting k) p

-- DisaggregatedProxy.__init__ over the endpoint URLs.
pub init : Strategy → List Text → List Text → Proxy
init strategy prefill_urls decode_urls = record {
  strategy = strategy;
  prefill_servers = map endpoint prefill_urls;
  decode_servers = map endpoint decode_urls;
  prefill_index = 0;
  decode_index = 0;
  stats = record {
    requests_total = 0;
    requests_success = 0;
    requests_failed = 0;
    prefill_requests = 0;
    decode_requests = 0;
    total_latency = 0;
  };
  waiting = [];
  cancelled = 0;
}

-- What can happen next: a request of either handler arrives, one goes on, fails or is cancelled
-- where it waits, and the outside marks a server as healthy or not. Each event has the places that
-- random.choice picks during it.
pub data Event : Type 0 where
  arriving arriving_stream : (choice : ℕ → ℕ) (max_tokens : Option ℕ) → Event
  resuming : (choice : ℕ → ℕ) (elapsed k : ℕ) → Event
  failing cancelling : (k : ℕ) → Event
  marking_prefill marking_decode : (i : ℕ) (up : Bool) → Event

pub mark : Bool → ServerEndpoint → ServerEndpoint
mark up s = record s { healthy = up }

pub step : Event → Proxy → Proxy
unfolding arrive arrive_stream resume fail cancel mark
step (arriving choice max_tokens) p = arrive choice max_tokens p
step (arriving_stream choice max_tokens) p = arrive_stream choice max_tokens p
step (resuming choice elapsed k) p = resume choice elapsed k p
step (failing k) p = fail k p
step (cancelling k) p = cancel k p
step (marking_prefill i up) p = record p { prefill_servers = modify i (mark up) p.prefill_servers }
step (marking_decode j up) p = record p { decode_servers = modify j (mark up) p.decode_servers }

pub run : List Event → Proxy → Proxy
unfolding step
run [] p = p
run (e ∷ es) p = run es (step e p)

pub data Status : Type 0 where
  healthy degraded unhealthy : Status

-- health_check: how many servers of each kind are healthy decides the status.
pub health_check : Proxy → Status
unfolding healthy_servers
health_check p =
    let healthy_prefill = length (healthy_servers p.prefill_servers) in
    let healthy_decode = length (healthy_servers p.decode_servers) in
    if healthy_prefill == 0 || healthy_decode == 0
    then Status.unhealthy
    else if ltb healthy_prefill (length p.prefill_servers)
        || ltb healthy_decode (length p.decode_servers)
    then Status.degraded
    else Status.healthy
