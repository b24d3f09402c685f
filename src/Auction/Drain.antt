-- ===== src/Auction/Drain.antt =====
-- The loop over the queue in LogicThread (AuctionServer.cpp), with nobody posting meanwhile.
use new_name_auction.Prelude.{
  ℕ, zero, suc, ◌≡◌, ◌≤◌, refl, sym, ◌∙◌, List, [], ◌∷◌, arith, length, Outcome, ok, fault, ◌>>=◌,
  >>=-congr, Ensures, Ensures-bind, nat_eq, ◌⊎◌, inl, inr,
}
use new_name_auction.Packet.{}
use new_name_auction.Auction.Text.{}
use new_name_auction.Auction.State.{Server, JobItem}
use new_name_auction.Auction.Message.{}
use new_name_auction.Auction.OwnList.{}
use new_name_auction.Auction.Handlers.{}
use new_name_auction.Auction.InitPackets.{}
use new_name_auction.Auction.Register.{}
use new_name_auction.Auction.Logic.{Env, process_job, drain_jobs}
use new_name_auction.Auction.Growth.Handlers.{}
use new_name_auction.Auction.Growth.Jobs.{}
use new_name_auction.Auction.QueueKept.{process_job_queue}

drain_jobs-empty :
    (env : Env) (fuel : ℕ) (s : Server) → s.job_queue ≡ [] → drain_jobs env fuel s ≡ ok s
unfolding drain_jobs
drain_jobs-empty env zero s e = refl
drain_jobs-empty env (suc fuel) s e = rw e refl

drain_jobs-cons :
    (env : Env) (fuel : ℕ) (s : Server) (j : JobItem) (rest : List JobItem)
    → s.job_queue ≡ j ∷ rest
    → drain_jobs env (suc fuel) s
      ≡ (process_job env j (record s { job_queue = rest }) >>= drain_jobs env fuel)
unfolding drain_jobs
drain_jobs-cons env fuel s j rest e = rw e refl

drain_enough :
    (env : Env) (fuel : ℕ) (queue : List JobItem) (s : Server)
    → s.job_queue ≡ queue
    → length queue ≤ fuel
    → drain_jobs env fuel s ≡ drain_jobs env (length queue) s
drain_enough env fuel [] s e h = drain_jobs-empty env fuel s e ∙ sym (drain_jobs-empty env 0 s e)
drain_enough env zero (j ∷ rest) s e h = absurd (omega arith)
drain_enough env (suc fuel) (j ∷ rest) s e h =
    drain_jobs-cons env fuel s j rest e
    ∙ (>>=-congr (process_job env j (record s { job_queue = rest })) (drain_jobs env fuel)
          (drain_jobs env (length rest))
          (λ s1 run. drain_enough env fuel rest s1 (process_job_queue env j _ s1 run) (omega arith))
        ∙ sym (drain_jobs-cons env (length rest) s j rest e))

drain_empties :
    (env : Env) (queue : List JobItem) (s : Server)
    → s.job_queue ≡ queue
    → Ensures (λ s'. s'.job_queue ≡ []) (drain_jobs env (length queue) s)
drain_empties env [] s e = rw (drain_jobs-empty env 0 s e) e
drain_empties env (j ∷ rest) s e = rw (drain_jobs-cons env (length rest) s j rest e) (
    Ensures-bind (λ s'. s'.job_queue ≡ []) (process_job env j (record s { job_queue = rest })) _
      λ s1 run. drain_empties env rest s1 (process_job_queue env j _ s1 run))

-- As many jobs as the queue holds are enough fuel for the loop of the logic thread: more fuel gives
-- the same result, faults included, and where the loop returns, the queue is empty.
pub drain_jobs_lem :
    (env : Env) (fuel : ℕ) (s : Server)
    → length s.job_queue ≤ fuel
    → (drain_jobs env fuel s ≡ drain_jobs env (length s.job_queue) s)
      × ((drain_jobs env fuel s ≡ fault)
          ⊎ ((s' : Server) × (drain_jobs env fuel s ≡ ok s') × (s'.job_queue ≡ [])))
drain_jobs_lem env fuel s h =
    let same = drain_enough env fuel s.job_queue s refl h in
    (same, outcome (drain_jobs env fuel s) (rw same (drain_empties env s.job_queue s refl)))
  where
    outcome :
        (m : Outcome Server)
        → Ensures (λ s'. s'.job_queue ≡ []) m
        → (m ≡ fault) ⊎ ((s' : Server) × (m ≡ ok s') × (s'.job_queue ≡ []))
    outcome (ok s') e = inr (s', refl, e)
    outcome fault e = inl refl
