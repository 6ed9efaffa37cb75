-- ===== src/Tests/Jobs.antt =====
-- A queue with one scheduler, which is parked when a request arrives.
use ai_model_gateway.Base.{◌+◌, ◌-◌, ◌≤◌, ◌≡◌, ◌⊎◌, refl, false, [], ◌∷◌, arith, length}
use ai_model_gateway.Queue.{
  high, PendingRequest, Queue, new_queue, started_queue, count_waiting, enqueue, send, scan_high_ch,
  scan_med_ch, scan_low_ch, Step, Reachable,
}
use ai_model_gateway.Queue.Slots.{running_bounded}
use ai_model_gateway.Queue.Waiting.{is_high, is_medium, is_low, waiting}
use ai_model_gateway.Queue.Counters.{lost_on, waiting_counted}
use ai_model_gateway.Queue.Wakeups.{no_lost_wakeup}

abbrev job : PendingRequest
job = record { priority = high; id = 7 }

abbrev new : Queue
unfolding started_queue
new = started_queue 1

abbrev scanning : Queue
scanning = record new { at_top = new.at_top - 1; scan_high = new.scan_high + 1 }

abbrev parked : Queue
unfolding scan_high_ch scan_med_ch scan_low_ch
parked =
    let after_high = scan_high_ch scanning.high_ch scanning in
    let after_med = scan_med_ch after_high.med_ch after_high in
    scan_low_ch after_med.low_ch after_med

abbrev sent : Queue
unfolding enqueue count_waiting
sent = record (enqueue false job parked) { senders = []; high_ch = job ∷ []; notifiers = 1 }

path_to_parked : Reachable new parked
unfolding scan_high_ch scan_med_ch scan_low_ch started_queue
path_to_parked =
    Reachable.then_step _ _
      (Reachable.then_step _ _
        (Reachable.then_step _ _
          (Reachable.then_step _ _ Reachable.start (Step.enters new (omega arith)))
          (Step.scans_high scanning (omega arith)))
        (Step.scans_med (scan_high_ch [] scanning) (omega arith)))
      (Step.scans_low (scan_med_ch [] (scan_high_ch [] scanning)) (omega arith))

path_to_sent : Reachable new sent
unfolding scan_high_ch scan_med_ch scan_low_ch started_queue enqueue count_waiting send
path_to_sent =
    Reachable.then_step _ _
      (Reachable.then_step _ _ path_to_parked (Step.enqueues false job parked))
      (Step.sends [] [] job (enqueue false job parked) sent refl refl)

running_bounded_example :
    (length sent.starting + length sent.running ≤ sent.max_conc)
    × (sent.sem ≡ length sent.starting + length sent.running)
    × (sent.active_count ≡ length sent.running + sent.finishing)
unfolding new_queue
running_bounded_example = running_bounded 1 60 new sent refl path_to_sent

no_lost_wakeup_example : (1 ≤ sent.parked) × ((1 ≤ sent.notify) ⊎ (1 ≤ sent.notifiers))
unfolding scan_high_ch scan_med_ch scan_low_ch started_queue enqueue count_waiting new_queue
no_lost_wakeup_example = no_lost_wakeup 1 60 new sent refl path_to_sent refl (omega arith) refl

waiting_counted_example :
    (sent.high_waiting ≡ waiting is_high sent)
    × (sent.med_waiting ≡ waiting is_medium sent + lost_on path_to_sent)
    × (sent.low_waiting ≡ waiting is_low sent)
unfolding new_queue
waiting_counted_example = waiting_counted 1 60 new sent refl path_to_sent
