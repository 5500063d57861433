-- ===== src/Server/Network/Serving/Asked.antt =====
-- The request of a shutdown in `run_server` of src/server/network.rs: actions and tasks leave it.
use rumsh.Prelude.{
  ℕ, zero, suc, ◌+◌, ◌≡◌, refl, ◌∙◌, Bool, true, false, List, [], ◌∷◌, Option, none, some, Result,
  ok, err, inl, inr, if◌then◌else◌, Bool-cases, ltb, length,
}
use rumsh.Protocol.Codec.Interface.{PacketCodec}
use rumsh.Server.Session.State.{
  UpdateJob, SessionAction, send_packet, offload_diff_job, resend_fragments, shutdown, run_job,
}
use rumsh.Server.Network.Tasks.{
  Packets, find_packets, is_received, Task, send_one, run_diff, send_diff, resend, Shared, Tasks,
  resend_cached, execute_action, execute_actions, poll_resend, job_done, poll,
}
use rumsh.Server.Network.Serving.{poll_at}

resend_cached_asked :
    {C : Type 0} (found : Option Packets) (mask : List ℕ) (target : ℕ) (ts : Tasks C)
    → (resend_cached found mask target ts).shared.shutdown_sent ≡ ts.shared.shutdown_sent
resend_cached_asked none mask target ts = refl
resend_cached_asked (some packets) mask target ts = refl

offload_asked :
    {C : Type 0} (b : Bool) (ts us : Tasks C)
    → ts.shared.shutdown_sent ≡ true
    → us.shared.shutdown_sent ≡ true
    → (if b then ts else us).shared.shutdown_sent ≡ true
offload_asked true ts us t u = t
offload_asked false ts us t u = u

execute_action_asked :
    {C : Type 0} (a : SessionAction C) (ts : Tasks C)
    → ts.shared.shutdown_sent ≡ true
    → (execute_action a ts).shared.shutdown_sent ≡ true
unfolding execute_action
execute_action_asked (send_packet bytes target) ts asked = asked
execute_action_asked (offload_diff_job job target) ts asked =
    offload_asked ts.shared.diff_in_flight ts _ asked asked
execute_action_asked (resend_fragments n mask target) ts asked =
    resend_cached_asked (find_packets n ts.shared.fragment_cache) mask target ts ∙ asked
execute_action_asked shutdown ts asked = refl

pub execute_actions_asked :
    {C : Type 0} (actions : List (SessionAction C)) (ts : Tasks C)
    → ts.shared.shutdown_sent ≡ true
    → (execute_actions actions ts).shared.shutdown_sent ≡ true
unfolding execute_actions
execute_actions_asked [] ts asked = asked
execute_actions_asked (a ∷ actions) ts asked =
    execute_actions_asked actions (execute_action a ts) (execute_action_asked a ts asked)

poll_resend_asked :
    (C : Type 0) (packets : Packets) (idx : ℕ) (mask : List ℕ) (target : ℕ) (sh : Shared)
    → (poll_resend {C = C} idx packets mask target sh).0.shutdown_sent ≡ sh.shutdown_sent
unfolding poll_resend
poll_resend_asked C [] idx mask target sh = refl
poll_resend_asked C (p ∷ packets) idx mask target sh = elim (Bool-cases (is_received mask idx)) [
  | inl marked ↦ rw marked (poll_resend_asked C packets (idx + 1) mask target sh)
  | inr open_one ↦ rw open_one refl
]

module _ (pc : PacketCodec) where
  job_done_asked :
      (job : UpdateJob pc.Codec) (target : ℕ) (r : Result Packets) (sh : Shared)
      → (job_done pc job target r sh).0.shutdown_sent ≡ sh.shutdown_sent
  unfolding job_done
  job_done_asked job target (err e) sh = refl
  job_done_asked job target (ok packets) sh = elim (Bool-cases (ltb 1 (length packets))) [
    | inl several ↦ rw several refl
    | inr single ↦ rw single refl
  ]

  poll_asked :
      (task : Task pc.Codec) (sh : Shared) → (poll pc task sh).0.shutdown_sent ≡ sh.shutdown_sent
  unfolding poll
  poll_asked (send_one bytes target) sh = refl
  poll_asked (run_diff job target) sh = job_done_asked job target (run_job pc job) sh
  poll_asked (send_diff [] target) sh = refl
  poll_asked (send_diff (p ∷ packets) target) sh = refl
  poll_asked (resend idx packets mask target) sh =
      poll_resend_asked pc.Codec packets idx mask target sh

  pub poll_at_asked :
      (idx : ℕ) (sh : Shared) (running : List (Task pc.Codec))
      → (poll_at pc idx sh running).0.shutdown_sent ≡ sh.shutdown_sent
  unfolding poll_at
  poll_at_asked idx sh [] = refl
  poll_at_asked zero sh (task ∷ running) = poll_asked task sh
  poll_at_asked (suc idx) sh (task ∷ running) = poll_at_asked idx sh running
