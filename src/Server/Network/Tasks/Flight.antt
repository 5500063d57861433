-- ===== src/Server/Network/Tasks/Flight.antt =====
-- What holds at every moment of any run of the tasks: one difference at most is in progress, and the
-- cache has at most four frames, each of them sealed by a job under its number.
use rumsh.Prelude.{
  ℕ, ◌+◌, ◌≤◌, ◌≡◌, refl, sym, ap, ◌∙◌, subst, inl, inr, Bool, true, false, List, [], ◌∷◌, ◌++◌,
  Option, none, some, Result, ok, err, length, ltb, if◌then◌else◌, Bool-cases, arith,
}
use rumsh.Protocol.Codec.Interface.{PacketCodec}
use rumsh.Server.Session.State.{
  UpdateJob, SessionAction, send_packet, offload_diff_job, resend_fragments, shutdown, run_job,
}
use rumsh.Server.Network.Tasks.{
  Packets, FragmentCache, find_packets, is_received, Task, send_one, run_diff, send_diff, resend,
  Shared, Tasks, spawn, resend_cached, execute_action, execute_actions, poll_resend, job_done, poll,
  still_running, Step, act, run, Reach, start, next,
}
use rumsh.Server.Network.Tasks.Cached.{AllSealed, cache_packets-AllSealed, cache_packets-le}

-- The differences among some tasks.
abbrev pub diffs : {C : Type 0} → List (Task C) → ℕ
diffs [] = 0
diffs (send_one bytes target ∷ ts) = diffs ts
diffs (run_diff job target ∷ ts) = diffs ts + 1
diffs (send_diff packets target ∷ ts) = diffs ts + 1
diffs (resend idx packets mask target ∷ ts) = diffs ts

abbrev pub flag_count : Bool → ℕ
flag_count b = if b then 1 else 0

diffs-append : {C : Type 0} (xs ys : List (Task C)) → diffs (xs ++ ys) ≡ diffs xs + diffs ys
diffs-append [] ys = omega arith
diffs-append (send_one bytes target ∷ xs) ys = diffs-append xs ys
diffs-append (run_diff job target ∷ xs) ys = omega (arith, diffs-append xs ys)
diffs-append (send_diff packets target ∷ xs) ys = omega (arith, diffs-append xs ys)
diffs-append (resend idx packets mask target ∷ xs) ys = diffs-append xs ys

-- Sending again leaves the flag and the cache, and is no difference.
record Harmless (C : Type 0) (sh : Shared) (r : Shared × Option (Task C)) : Type 0 where
  flag : r.0.diff_in_flight ≡ sh.diff_in_flight
  cache : r.0.fragment_cache ≡ sh.fragment_cache
  none_new : diffs (still_running r.1) ≡ 0

poll_resend-Harmless :
    (C : Type 0) (packets : Packets) (idx : ℕ) (mask : List ℕ) (target : ℕ) (sh : Shared)
    → Harmless C sh (poll_resend idx packets mask target sh)
unfolding poll_resend
poll_resend-Harmless C [] idx mask target sh = record { flag = refl; cache = refl; none_new = refl }
poll_resend-Harmless C (p ∷ packets) idx mask target sh = elim (Bool-cases (is_received mask idx)) [
  | inl marked ↦ rw marked (poll_resend-Harmless C packets (idx + 1) mask target sh)
  | inr open_one ↦ rw open_one (record { flag = refl; cache = refl; none_new = refl })
]

module _ (pc : PacketCodec) where
  open pc use {Codec}

  pub record Ordered (ts : Tasks Codec) : Type 0 where
    pub one : diffs ts.running ≡ flag_count ts.shared.diff_in_flight
    pub few : length ts.shared.fragment_cache ≤ 4
    pub sealed : AllSealed pc ts.shared.fragment_cache

  spawn-Ordered :
      (task : Task Codec) (ts : Tasks Codec)
      → diffs (task ∷ []) ≡ 0
      → Ordered ts
      → Ordered (spawn task ts)
  spawn-Ordered task ts none_new o = record {
    one = omega (arith, diffs-append ts.running (task ∷ []), o.one);
    few = o.few;
    sealed = o.sealed;
  }

  -- The flag keeps a second job out.
  offload-Ordered :
      (job : UpdateJob Codec) (target : ℕ) (ts : Tasks Codec) (flag : Bool)
      → ts.shared.diff_in_flight ≡ flag
      → Ordered ts
      → Ordered (
          if flag
          then ts
          else spawn
              (run_diff job target)
              (record ts { shared = record ts.shared { diff_in_flight = true } }))
  offload-Ordered job target ts true e o = o
  offload-Ordered job target ts false e o =
      let was : diffs ts.running ≡ 0 = o.one ∙ ap flag_count e in
      record {
        one = omega (arith, diffs-append ts.running (run_diff job target ∷ []), was);
        few = o.few;
        sealed = o.sealed;
      }

  resend_cached-Ordered :
      (found : Option Packets) (mask : List ℕ) (target : ℕ) (ts : Tasks Codec)
      → Ordered ts
      → Ordered (resend_cached found mask target ts)
  resend_cached-Ordered none mask target ts o = o
  resend_cached-Ordered (some packets) mask target ts o =
      spawn-Ordered (resend 0 packets mask target) ts refl o

  execute_action-Ordered :
      (a : SessionAction Codec) (ts : Tasks Codec) → Ordered ts → Ordered (execute_action a ts)
  unfolding execute_action
  execute_action-Ordered (send_packet bytes target) ts o =
      spawn-Ordered (send_one bytes target) ts refl o
  execute_action-Ordered (offload_diff_job job target) ts o =
      offload-Ordered job target ts ts.shared.diff_in_flight refl o
  execute_action-Ordered (resend_fragments frame_seq mask target) ts o =
      resend_cached-Ordered (find_packets frame_seq ts.shared.fragment_cache) mask target ts o
  execute_action-Ordered shutdown ts o = record { one = o.one; few = o.few; sealed = o.sealed }

  pub execute_actions-Ordered :
      (actions : List (SessionAction Codec)) (ts : Tasks Codec)
      → Ordered ts
      → Ordered (execute_actions actions ts)
  unfolding execute_actions
  execute_actions-Ordered [] ts o = o
  execute_actions-Ordered (a ∷ actions) ts o =
      execute_actions-Ordered actions (execute_action a ts) (execute_action-Ordered a ts o)

  -- What a poll does to the count, beside the other tasks' `rest`.
  record Polled (rest : ℕ) (r : Shared × Option (Task Codec)) : Type 0 where
    one : rest + diffs (still_running r.1) ≡ flag_count r.0.diff_in_flight
    few : length r.0.fragment_cache ≤ 4
    sealed : AllSealed pc r.0.fragment_cache

  job_done-Polled :
      (rest : ℕ) (job : UpdateJob Codec) (target : ℕ) (sh : Shared)
      → rest + 1 ≡ flag_count sh.diff_in_flight
      → length sh.fragment_cache ≤ 4
      → AllSealed pc sh.fragment_cache
      → (r : Result Packets) → run_job pc job ≡ r
      → Polled rest (job_done pc job target r sh)
  unfolding job_done
  job_done-Polled rest job target sh one few sealed (err e) made = record {
    one = ground arith;
    few = few;
    sealed = sealed;
  }
  job_done-Polled rest job target sh one few sealed (ok packets) made =
      elim (Bool-cases (ltb 1 (length packets))) [
        | inl several ↦ rw several (record {
          one = one;
          few = cache_packets-le pc sh.fragment_cache job.seq packets few;
          sealed =
              cache_packets-AllSealed pc sh.fragment_cache job.seq packets sealed
                (record { job = job; number = refl; made = made; several = ground arith });
        })
        | inr single ↦ rw single (record { one = one; few = few; sealed = sealed })
      ]

  poll-Polled :
      (rest : ℕ) (task : Task Codec) (sh : Shared)
      → rest + diffs (task ∷ []) ≡ flag_count sh.diff_in_flight
      → length sh.fragment_cache ≤ 4
      → AllSealed pc sh.fragment_cache
      → Polled rest (poll pc task sh)
  unfolding poll
  poll-Polled rest (send_one bytes target) sh one few sealed = record {
    one = one;
    few = few;
    sealed = sealed;
  }
  poll-Polled rest (run_diff job target) sh one few sealed =
      job_done-Polled rest job target sh one few sealed (run_job pc job) refl
  poll-Polled rest (send_diff [] target) sh one few sealed = record {
    one = ground arith;
    few = few;
    sealed = sealed;
  }
  poll-Polled rest (send_diff (p ∷ packets) target) sh one few sealed = record {
    one = one;
    few = few;
    sealed = sealed;
  }
  poll-Polled rest (resend idx packets mask target) sh one few sealed =
      let h = poll_resend-Harmless Codec packets idx mask target sh in
      record {
        one = ap (λ n. rest + n) h.none_new ∙ one ∙ ap flag_count (sym h.flag);
        few = subst (λ (c : FragmentCache). length c ≤ 4) (sym h.cache) few;
        sealed = subst (AllSealed pc) (sym h.cache) sealed;
      }

  pub Step-Ordered : {ts us : Tasks Codec} → Step pc ts us → Ordered ts → Ordered us
  Step-Ordered (act actions ts) o = execute_actions-Ordered actions ts o
  Step-Ordered (run before after task sh) o =
      let counted : diffs before + diffs after + diffs (task ∷ []) ≡ flag_count sh.diff_in_flight =
        omega (arith, o.one, diffs-append before (task ∷ after), diffs-append (task ∷ []) after) in
      let p = poll-Polled (diffs before + diffs after) task sh counted o.few o.sealed in
      record {
        one = omega (
          arith,
          p.one,
          diffs-append before (still_running (poll pc task sh).1 ++ after),
          diffs-append (still_running (poll pc task sh).1) after,
        );
        few = p.few;
        sealed = p.sealed;
      }

  -- In any run of the tasks, with any actions of the session and any interleaving: the flag is set
  -- if and only if one difference is in progress, there is never a second one, and the cache has at
  -- most four entries, each of them the several packets that a job sealed under the entry's number.
  pub Reach-Ordered : {ts : Tasks Codec} → Reach pc ts → Ordered ts
  Reach-Ordered start = record { one = refl; few = omega arith; sealed = tt }
  Reach-Ordered (next r st) = Step-Ordered st (Reach-Ordered r)
