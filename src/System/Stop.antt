-- ===== src/System/Stop.antt =====
-- The client's request to stop, and the end of the daemon's process.
use mathlib.Core.List.{map}
use csel.Prelude.{
  ◌≡◌, refl, ◌∙◌, ap, sym, subst, List, [], ◌∷◌, ◌++◌, Option, none, some, true, false, Bool-cases,
  inl, inr, ℤ, pos, append_assoc, append-nil,
}
use csel.Cstd.{Bytes, codes, Outcome, ok, and_then, and_then-eq-ok}
use csel.Client.{Env}
use csel.Daemon.{Daemon, Trace, i2c}
use csel.Daemon.Startup.{StartAnswers, start_daemon}
use csel.Daemon.Messages.{Locals, receive, serve}
use csel.Daemon.Fan.{get_mode}
use csel.Daemon.Lcd.{header_top, header_name, header_rule, lcd_write_header}
use csel.Daemon.Lcd.Bounds.{line_total, lcd_write_mode_total}
use csel.Daemon.Body.{set_up, body, main, process_of, open_queues, cleanup}
use csel.Ssd1306.Frames.{init_total}
use csel.System.Replies.{request_for, stop_ends_serve}

-- Messages that do not end the loop, and then others.
serve-append :
    (before rs : List (Option (Bytes × Locals))) (d d' d'' : Daemon) (t u : Trace)
    → serve before d ≡ ok (tt, d', t)
    → d'.stop_request ≡ false
    → serve rs d' ≡ ok (tt, d'', u)
    → serve (before ++ rs) d ≡ ok (tt, d'', t ++ u)
unfolding serve
serve-append [] rs d d' d'' t u e goes_on later =
    let same : d' ≡ d = cc in
    let nothing : t ≡ [] = cc in rw nothing (subst (λ x. serve rs x ≡ ok (tt, d'', u)) same later)
serve-append (r ∷ before) rs d d' d'' t u e goes_on later =
    let ((_, d1, t1), received, rest) = and_then-eq-ok (receive r d) _ e in
    elim (Bool-cases d1.stop_request) [
      | inl stops ↦
          let last : ok (tt, d1, t1 ++ []) ≡ ok (tt, d', t) = rw stops at rest in
          let same : d1 ≡ d' = cc in
          let stopped : d'.stop_request ≡ true = subst (λ x. x.stop_request ≡ true) same stops in
          absurd (cc (goes_on, stopped))
      | inr open_loop ↦
          let more : and_then (and_then (serve before d1) (λ (b, d2, v). ok (b, d2, v)))
                (λ (b, d2, v). ok (b, d2, t1 ++ v))
              ≡ ok (tt, d', t) =
            rw open_loop at rest in
          let (got, ran, last) = and_then-eq-ok (and_then (serve before d1) _) _ more in
          let ((_, d2, v), served, same) = and_then-eq-ok (serve before d1) _ ran in
          let whole : t1 ++ v ≡ t = cc (last, same) in
          let here : d2 ≡ d' = cc (last, same) in
          let run =
            serve-append before rs d1 d' d'' v u
              (subst (λ x. serve before d1 ≡ ok (tt, x, v)) here served) goes_on later in
          rw (received, open_loop, run)
            (ap (λ w. ok (tt, d'', w)) (sym (append_assoc t1 v u) ∙ ap (λ w. w ++ u) whole))
    ]

header_total : (calls : Trace) × ((d : Daemon) → lcd_write_header d ≡ ok (tt, d, calls))
unfolding lcd_write_header
header_total =
    let (top, e0) = line_total 0 header_top in
    let (name, e1) = line_total 1 header_name in
    let (rule, e2) = line_total 2 header_rule in
    (map i2c top ++ (map i2c name ++ map i2c rule), λ d. rw (e0, e1, e2) refl)

-- The set-up runs, where the file of the mode can be read.
set_up_runs :
    (bus access : ℤ) (d d1 : Daemon) (mode : ℤ) (t : Trace)
    → get_mode d ≡ ok (mode, d1, t)
    → (calls : Trace) × (set_up bus access d ≡ ok (tt, record d1 { cur_mode = mode }, calls))
unfolding set_up
set_up_runs bus access d d1 mode t e =
    let (ret, sent, ready, _, _) = init_total bus access in
    let (header, shown) = header_total in
    let (line, written) = lcd_write_mode_total mode in
    (
      map i2c sent ++ (header ++ (t ++ ([] ++ map i2c line))),
      rw (ready, shown d, e, written (record d1 { cur_mode = mode })) refl,
    )

-- Where the process goes on from its start to its body, the mode can be read, and the messages
-- before it are handled without undefined behaviour and without an end of the loop, the client's
-- request to stop ends the process with the status 0, whatever else is in the queue: both queues
-- are closed and unlinked, and behind the calls of the set-up and of the earlier messages there
-- is no further one.
pub stop_ends_process :
    (a : StartAnswers) (arguments : List Bytes) (bus access : ℤ)
    (before rs : List (Option (Bytes × Locals))) (env : Env) (stale : Locals) (d d1 d2 : Daemon)
    (mode : ℤ) (t u : Trace)
    → (start_daemon a arguments).0 ≡ none
    → get_mode d ≡ ok (mode, d1, t)
    → serve before (record d1 { cur_mode = mode }) ≡ ok (tt, d2, u)
    → d2.stop_request ≡ false
    → (calls : Trace) × (main a arguments bus access
          (before ++ some (request_for env (codes "stop") (pos 0), stale) ∷ rs)
          d
        ≡ ok (record {
          status = some (pos 0);
          start_calls = (start_daemon a arguments).1;
          calls = calls ++ u;
          queues = open_queues ++ cleanup;
        }))
unfolding main body process_of
stop_ends_process a arguments bus access before rs env stale d d1 d2 mode t u started e ran
      goes_on =
    let (calls, ready) = set_up_runs bus access d d1 mode t e in
    let served = serve-append before _ _ _ _ u [] ran goes_on (stop_ends_serve env stale rs d2) in
    (
      calls,
      ap (λ exit. process_of exit (start_daemon a arguments).1 run) started
          ∙ rw (ready, served, append-nil u) refl,
    )
  where
    run : Outcome (Unit {0} × Daemon × Trace)
    run = body bus access (before ++ some (request_for env (codes "stop") (pos 0), stale) ∷ rs) d
