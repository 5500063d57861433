-- ===== src/Server/Network/Tasks.antt =====
-- `execute_actions` of `run_server` of src/server/network.rs, and the tasks that it spawns: the
-- flag of the difference that is in flight, the cache of fragments, and what goes out. A task runs
-- from one `await` to the next; between them any other may run.
pub mod Cached
pub mod Flight
pub mod Finish
use rumsh.Prelude.{
  ℕ, zero, suc, ◌+◌, ◌/◌, ◌%◌, Bool, true, false, not, List, [], ◌∷◌, ◌++◌, Option, none, some,
  Result, ok, err, length, get_elem?, leb, ltb, ◌==◌, if◌then◌else◌,
}
use rumsh.Protocol.Codec.Interface.{PacketCodec}
use rumsh.Protocol.Fragments.Masks.{bit_of}
use rumsh.Server.Session.State.{
  UpdateJob, SessionAction, send_packet, offload_diff_job, resend_fragments, shutdown, run_job,
  pop_front,
}

abbrev pub Packets : Type 0
Packets = List (List ℕ)

-- Sequence number and packets, oldest first.
abbrev pub FragmentCache : Type 0
FragmentCache = List (ℕ × Packets)

-- `cache.iter().find(|(seq, _)| *seq == frame_seq)`.
abbrev pub find_packets : ℕ → FragmentCache → Option Packets
find_packets frame_seq [] = none
find_packets frame_seq ((seq, packets) ∷ cache) =
    if seq == frame_seq then some packets else find_packets frame_seq cache

-- The oldest goes when there are four.
unfoldable pub cache_packets : FragmentCache → ℕ → Packets → FragmentCache
cache_packets cache seq packets =
    (if leb 4 (length cache) then pop_front cache else cache) ++ (seq, packets) ∷ []

-- `received_mask[word_idx] & (1 << bit_idx) != 0`, and false behind the mask.
abbrev pub is_received : List ℕ → ℕ → Bool
is_received received_mask idx = bit_of received_mask idx

-- A spawned task, by what it has left to do: to send one packet; to run a job; to send the packets of
-- a job; and to send again the packets from index `idx` on that are not marked.
pub data Task (C : Type 0) : Type 0 where
  send_one : (bytes : List ℕ) → (target : ℕ) → Task C
  run_diff : (job : UpdateJob C) → (target : ℕ) → Task C
  send_diff : (packets : Packets) → (target : ℕ) → Task C
  resend : (idx : ℕ) → (packets : Packets) → (received_mask : List ℕ) → (target : ℕ) → Task C

-- What the tasks share: the flag, the cache, the channel of shutdowns, which has room for one, and
-- the datagrams that went out, the last one first.
pub record Shared : Type 0 where
  pub diff_in_flight : Bool
  pub fragment_cache : FragmentCache
  pub shutdown_sent : Bool
  pub wire : List (List ℕ × ℕ)

pub record Tasks (C : Type 0) : Type 0 where
  pub shared : Shared
  pub running : List (Task C)

abbrev pub transmit : List ℕ → ℕ → Shared → Shared
transmit bytes target sh = record sh { wire = (bytes, target) ∷ sh.wire }

abbrev pub spawn : {C : Type 0} → Task C → Tasks C → Tasks C
spawn task ts = record ts { running = ts.running ++ task ∷ [] }

abbrev pub resend_cached : {C : Type 0} → Option Packets → List ℕ → ℕ → Tasks C → Tasks C
resend_cached none received_mask target ts = ts
resend_cached (some packets) received_mask target ts =
    spawn (resend 0 packets received_mask target) ts

-- One action: `swap` sets the flag whatever it was.
unfoldable pub execute_action : {C : Type 0} → SessionAction C → Tasks C → Tasks C
execute_action (send_packet bytes target) ts = spawn (send_one bytes target) ts
execute_action (offload_diff_job job target) ts =
    if ts.shared.diff_in_flight
    then ts
    else spawn (run_diff job target)
        (record ts { shared = record ts.shared { diff_in_flight = true } })
execute_action (resend_fragments frame_seq received_mask target) ts =
    resend_cached (find_packets frame_seq ts.shared.fragment_cache) received_mask target ts
execute_action shutdown ts = record ts { shared = record ts.shared { shutdown_sent = true } }

unfoldable pub execute_actions : {C : Type 0} → List (SessionAction C) → Tasks C → Tasks C
unfolding execute_action
execute_actions [] ts = ts
execute_actions (a ∷ actions) ts = execute_actions actions (execute_action a ts)

abbrev pub land : Shared → Shared
land sh = record sh { diff_in_flight = false }

-- The next of the packets that are to be sent again, skipping those that are marked.
unfoldable pub poll_resend :
    {C : Type 0} → ℕ → Packets → List ℕ → ℕ → Shared → Shared × Option (Task C)
poll_resend idx [] received_mask target sh = (sh, none)
poll_resend idx (p ∷ packets) received_mask target sh =
    let skipped = poll_resend (idx + 1) packets received_mask target sh in
    if not (is_received received_mask idx)
    then (transmit p target sh, some (resend (idx + 1) packets received_mask target))
    else skipped

abbrev pub still_running : {C : Type 0} → Option (Task C) → List (Task C)
still_running none = []
still_running (some task) = task ∷ []

module _ (pc : PacketCodec) where
  open pc use {Codec}

  -- A job that is done: its packets are cached if they are more than one.
  unfoldable pub job_done :
      UpdateJob Codec → ℕ → Result Packets → Shared → Shared × Option (Task Codec)
  job_done job target (err e) sh = (land sh, none)
  job_done job target (ok packets) sh = (
    if ltb 1 (length packets)
        then record sh { fragment_cache = cache_packets sh.fragment_cache job.seq packets }
        else sh,
    some (send_diff packets target),
  )

  -- A task runs to its next `await`; `none` when it is over.
  unfoldable pub poll : Task Codec → Shared → Shared × Option (Task Codec)
  unfolding job_done
  poll (send_one bytes target) sh = (transmit bytes target sh, none)
  poll (run_diff job target) sh = job_done job target (run_job pc job) sh
  poll (send_diff [] target) sh = (land sh, none)
  poll (send_diff (p ∷ packets) target) sh = (transmit p target sh, some (send_diff packets target))
  poll (resend idx packets received_mask target) sh =
      poll_resend idx packets received_mask target sh

  -- The receiver and the timer give actions, and any task may be polled.
  pub data Step : Tasks Codec → Tasks Codec → Type 0 where
    act :
        (actions : List (SessionAction Codec)) (ts : Tasks Codec)
        → Step ts (execute_actions actions ts)
    run :
        (before after : List (Task Codec)) (task : Task Codec) (sh : Shared)
        → Step
            (record { shared = sh; running = before ++ task ∷ after })
            (record {
              shared = (poll task sh).0;
              running = before ++ (still_running (poll task sh).1 ++ after);
            })

  abbrev pub idle : Tasks Codec
  idle = record {
    shared = record {
      diff_in_flight = false;
      fragment_cache = [];
      shutdown_sent = false;
      wire = [];
    };
    running = [];
  }

  pub data Reach : Tasks Codec → Type 0 where
    start : Reach idle
    next : {ts us : Tasks Codec} → Reach ts → Step ts us → Reach us
