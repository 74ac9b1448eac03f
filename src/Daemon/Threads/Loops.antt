-- ===== src/Daemon/Threads/Loops.antt =====
-- The loop of main makes the calls of a thread that handles its messages in turn.
use csel.Prelude.{◌≡◌, subst, inl, inr, Bool-cases, Option, List, [], ◌∷◌, ◌++◌}
use csel.Cstd.{Bytes, ok, and_then, and_then-eq-ok}
use csel.Daemon.World.{Daemon, Trace}
use csel.Daemon.Messages.{Locals, receive, serve}
use csel.Daemon.Threads.{finished, handled, MainRuns}

-- The calls of a run of main's loop that ends without undefined behaviour are calls of the thread
-- of main as the two threads' interleaving takes them, message after message.
pub serve-MainRuns :
    (rs : List (Option (Bytes × Locals))) (d d' : Daemon) (t : Trace)
    → serve rs d ≡ ok (tt, d', t)
    → MainRuns t
unfolding serve
serve-MainRuns [] d d' t e = let empty : [] ≡ t = cc in subst MainRuns empty finished
serve-MainRuns (r ∷ rs) d d' t e =
    let ((_, d1, t1), received, rest) = and_then-eq-ok (receive r d) _ e in
    elim (Bool-cases d1.stop_request) [
      | inl stops ↦
          let whole : t1 ++ [] ≡ t = cc (rest, stops) in
          subst MainRuns whole (handled r d d1 t1 [] received finished)
      | inr goes_on ↦
          let more : and_then (and_then (serve rs d1) (λ (b, d2, u). ok (b, d2, u)))
                (λ (b, d2, u). ok (b, d2, t1 ++ u))
              ≡ ok (tt, d', t) =
            rw goes_on at rest in
          let (got, ran, last) = and_then-eq-ok (and_then (serve rs d1) _) _ more in
          let ((_, d2, u), served, same) = and_then-eq-ok (serve rs d1) _ ran in
          let whole : t1 ++ u ≡ t = cc (last, same) in
          subst MainRuns whole (handled r d d1 t1 u received (serve-MainRuns rs d1 d2 u served))
    ]
