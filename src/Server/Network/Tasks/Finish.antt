-- ===== src/Server/Network/Tasks/Finish.antt =====
-- What a task does by its end, and that it ends: a difference gives its flag back, and what is sent
-- again is just what the client lacks.
use rumsh.Prelude.{
  ℕ, zero, suc, ◌+◌, ◌≤◌, ◌<◌, ◌≡◌, refl, ap, ap₂, ◌∙◌, inl, inr, List, [], ◌∷◌, Option, none, some,
  Result, ok, err, length, Map, lookup, is_some, ltb, if◌then◌else◌, Bool-cases, arith,
}
use rumsh.Protocol.Codec.Interface.{PacketCodec}
use rumsh.Protocol.Fragments.{FrameFragments}
use rumsh.Protocol.Fragments.Masks.{Describes}
use rumsh.Server.Session.State.{UpdateJob, run_job}
use rumsh.Server.Network.Tasks.{
  Packets, cache_packets, is_received, Task, send_one, run_diff, send_diff, resend, Shared,
  transmit, land, poll_resend, job_done, poll,
}

abbrev pub transmit_all : Packets → ℕ → Shared → Shared
transmit_all [] target sh = sh
transmit_all (p ∷ packets) target sh = transmit_all packets target (transmit p target sh)

-- The packets from index `idx` on whose bit is not set.
abbrev pub unmarked : List ℕ → ℕ → Packets → Packets
unmarked mask idx [] = []
unmarked mask idx (p ∷ packets) =
    if is_received mask idx
    then unmarked mask (idx + 1) packets
    else p ∷ unmarked mask (idx + 1) packets

abbrev pub keep_several : ℕ → Packets → Shared → Shared
keep_several seq packets sh =
    if ltb 1 (length packets)
    then record sh { fragment_cache = cache_packets sh.fragment_cache seq packets }
    else sh

-- The packets from index `idx` on that a client lacks.
abbrev pub missing : Map (List ℕ) → ℕ → Packets → Packets
missing frags idx [] = []
missing frags idx (p ∷ packets) =
    if is_some (lookup idx frags)
    then missing frags (idx + 1) packets
    else p ∷ missing frags (idx + 1) packets

unmarked-missing :
    (mask : List ℕ) (e : FrameFragments) (packets : Packets) (idx : ℕ)
    → Describes mask e
    → idx + length packets ≤ e.total_frags
    → unmarked mask idx packets ≡ missing e.fragments idx packets
unmarked-missing mask e [] idx d h = refl
unmarked-missing mask e (p ∷ packets) idx d h =
    let rest = unmarked-missing mask e packets (idx + 1) d (omega arith) in
    ap₂ (λ b (ps : Packets). if b then ps else p ∷ ps) (d.bits idx (omega arith)) rest

module _ (pc : PacketCodec) where
  open pc use {Codec}

  -- A task alone, for a number of polls.
  pub run_out : ℕ → Option (Task Codec) → Shared → Shared × Option (Task Codec)
  run_out zero task sh = (sh, task)
  run_out (suc n) none sh = (sh, none)
  run_out (suc n) (some task) sh = let (sh', left) = poll pc task sh in run_out n left sh'

  abbrev pub job_effect : UpdateJob Codec → ℕ → Result Packets → Shared → Shared
  job_effect job target (err e) sh = land sh
  job_effect job target (ok packets) sh =
      land (transmit_all packets target (keep_several job.seq packets sh))

  -- What the task is for.
  abbrev pub effect : Task Codec → Shared → Shared
  effect (send_one bytes target) sh = transmit bytes target sh
  effect (run_diff job target) sh = job_effect job target (run_job pc job) sh
  effect (send_diff packets target) sh = land (transmit_all packets target sh)
  effect (resend idx packets mask target) sh = transmit_all (unmarked mask idx packets) target sh

  abbrev pub job_polls : Result Packets → ℕ
  job_polls (err e) = 1
  job_polls (ok packets) = length packets + 2

  -- Enough polls for the task.
  abbrev pub polls : Task Codec → ℕ
  polls (send_one bytes target) = 1
  polls (run_diff job target) = job_polls (run_job pc job)
  polls (send_diff packets target) = length packets + 1
  polls (resend idx packets mask target) = length packets + 1

  run_out-none : (n : ℕ) (sh : Shared) → run_out n none sh ≡ (sh, none)
  unfolding run_out
  run_out-none zero sh = refl
  run_out-none (suc n) sh = refl

  run_out-send_diff :
      (packets : Packets) (n target : ℕ) (sh : Shared)
      → length packets < n
      → run_out n (some (send_diff packets target)) sh
        ≡ (land (transmit_all packets target sh), none)
  unfolding run_out poll
  run_out-send_diff packets zero target sh h = elim h [ ]
  run_out-send_diff [] (suc n) target sh h = run_out-none n (land sh)
  run_out-send_diff (p ∷ packets) (suc n) target sh h =
      run_out-send_diff packets n target (transmit p target sh) (omega arith)

  run_out-resend_step :
      (packets : Packets) (idx n : ℕ) (mask : List ℕ) (target : ℕ) (sh : Shared)
      → run_out (suc n) (some (resend idx packets mask target)) sh ≡ (
          let (sh', left) = poll_resend {C = Codec} idx packets mask target sh in
          run_out n left sh')
  unfolding run_out poll
  run_out-resend_step packets idx n mask target sh = refl

  run_out-resend :
      (packets : Packets) (idx n : ℕ) (mask : List ℕ) (target : ℕ) (sh : Shared)
      → length packets ≤ n
      → (let (sh', left) = poll_resend {C = Codec} idx packets mask target sh in run_out n left sh')
        ≡ (transmit_all (unmarked mask idx packets) target sh, none)
  unfolding poll_resend
  run_out-resend [] idx n mask target sh h = run_out-none n sh
  run_out-resend (p ∷ packets) idx zero mask target sh h = elim h [ ]
  run_out-resend (p ∷ packets) idx (suc n) mask target sh h =
      elim (Bool-cases (is_received mask idx)) [
        | inl marked ↦
            rw marked (run_out-resend packets (idx + 1) (suc n) mask target sh (omega arith))
        | inr open_one ↦ rw open_one (
            run_out-resend_step packets (idx + 1) n mask target (transmit p target sh)
            ∙ run_out-resend packets (idx + 1) n mask target (transmit p target sh) (omega arith))
      ]

  run_out-job :
      (job : UpdateJob Codec) (n target : ℕ) (sh : Shared) (r : Result Packets)
      → job_polls r ≤ suc n
      → (let (sh', left) = job_done pc job target r sh in run_out n left sh')
        ≡ (job_effect job target r sh, none)
  unfolding job_done
  run_out-job job n target sh (err e) h = run_out-none n (land sh)
  run_out-job job n target sh (ok packets) h =
      run_out-send_diff packets n target (keep_several job.seq packets sh) (omega arith)

  -- A task that is polled often enough ends, with just the effect that it is for: a packet goes out;
  -- a job's packets are cached if they are several, all go out in order, and the flag is cleared,
  -- also when the job fails; of a frame that is sent again the packets without a mark go out, in
  -- order. It is enough to poll it twice more than it has packets.
  pub run_out-effect :
      (task : Task Codec) (n : ℕ) (sh : Shared)
      → polls task ≤ n
      → run_out n (some task) sh ≡ (effect task sh, none)
  unfolding run_out poll
  run_out-effect (send_one bytes target) (suc n) sh h = run_out-none n (transmit bytes target sh)
  run_out-effect (run_diff job target) (suc n) sh h = run_out-job job n target sh (run_job pc job) h
  run_out-effect (send_diff packets target) (suc n) sh h =
      run_out-send_diff packets (suc n) target sh (omega arith)
  run_out-effect (resend idx packets mask target) (suc n) sh h =
      run_out-resend packets idx n mask target sh (omega arith)
  run_out-effect (send_one bytes target) zero sh h = elim h [ ]
  run_out-effect (run_diff job target) zero sh h = absurd (polls_pos (run_job pc job) h)
    where
      polls_pos : (r : Result Packets) → job_polls r ≤ 0 → ⊥
      polls_pos (err e) h = elim h [ ]
      polls_pos (ok packets) h = omega arith
  run_out-effect (send_diff packets target) zero sh h = absurd (omega arith)
  run_out-effect (resend idx packets mask target) zero sh h = absurd (omega arith)

  -- The mask that a client makes of an entry of its buffer, sent for a frame whose packets the server
  -- has: the packets that go out again are those that the client lacks, in order, and no other.
  pub run_out-missing :
      (mask : List ℕ) (e : FrameFragments) (packets : Packets) (target n : ℕ) (sh : Shared)
      → Describes mask e
      → length packets ≡ e.total_frags
      → length packets < n
      → run_out n (some (resend 0 packets mask target)) sh
        ≡ (transmit_all (missing e.fragments 0 packets) target sh, none)
  run_out-missing mask e packets target n sh d whole enough =
      run_out-effect (resend 0 packets mask target) n sh (omega arith)
      ∙ ap (λ ps. (transmit_all ps target sh, none))
          (unmarked-missing mask e packets 0 d (omega arith))
