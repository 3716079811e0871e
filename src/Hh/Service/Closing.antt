-- ===== src/Hh/Service/Closing.antt =====
-- Close of hh/service.go beside the goroutine of purgeInactiveProcessors, in steps: both take the lock
-- of the service, and Close waits for the goroutine while it has it.
use influxdb_cluster.Prelude.{◌≡◌, ◌≢◌, ◌↔◌, refl}

-- The goroutine: at its select, after a tick before it has the lock, in a pass, returned.
pub data Purger : Type 0 where
  selecting ticked sweeping returned : Purger

-- Close: not called, with the lock and before or after `close(s.closing)`, at `s.wg.Wait()` in the
-- latter case, returned, and returned the error of a processor that did not close. In the last
-- case the lock is free, and `closing` was not closed.
pub data Closer : Type 0 where
  not_called closing_queues waiting closed close_failed : Closer

pub record Threads : Type 0 where
  pub purger : Purger
  pub closer : Closer

pub data CloseStep : Threads → Threads → Type 0 where
  tick :
      {c : Closer}
      → CloseStep
          (record { purger = selecting; closer = c })
          (record { purger = ticked; closer = c })
  -- The pass takes the lock when Close does not have it, and gives it back.
  start_pass :
      {c : Closer}
      → c ≢ closing_queues
      → c ≢ waiting
      → CloseStep
          (record { purger = ticked; closer = c })
          (record { purger = sweeping; closer = c })
  end_pass :
      {c : Closer}
      → CloseStep
          (record { purger = sweeping; closer = c })
          (record { purger = selecting; closer = c })
  -- The channel is closed, which the select sees.
  see_closing :
      CloseStep
        (record { purger = selecting; closer = waiting })
        (record { purger = returned; closer = waiting })
  call_close :
      {p : Purger}
      → p ≢ sweeping
      → CloseStep
          (record { purger = p; closer = not_called })
          (record { purger = p; closer = closing_queues })
  -- Close is called again after an error.
  call_again :
      {p : Purger}
      → p ≢ sweeping
      → CloseStep
          (record { purger = p; closer = close_failed })
          (record { purger = p; closer = closing_queues })
  -- A processor gives an error, and Close returns it.
  fail_close :
      {p : Purger}
      → CloseStep
          (record { purger = p; closer = closing_queues })
          (record { purger = p; closer = close_failed })
  close_channel :
      {p : Purger}
      → CloseStep
          (record { purger = p; closer = closing_queues })
          (record { purger = p; closer = waiting })
  finish_close :
      CloseStep
        (record { purger = returned; closer = waiting })
        (record { purger = returned; closer = closed })

pub data CloseSteps : Threads → Threads → Type 0 where
  stop : {s : Threads} → CloseSteps s s
  step : {s t u : Threads} → CloseStep s t → CloseSteps t u → CloseSteps s u

-- The goroutine wants the lock, which Close has while it waits for the goroutine.
abbrev pub IsStuck : Threads → Type 0
IsStuck s = (s.purger ≡ ticked) × (s.closer ≡ waiting)

step-IsStuck : {s t : Threads} → CloseStep s t → IsStuck s → IsStuck t
step-IsStuck tick h = cc h.0
step-IsStuck (start_pass _ apart) h = absurd (apart h.1)
step-IsStuck end_pass h = cc h.0
step-IsStuck see_closing h = cc h.0
step-IsStuck (call_close _) h = cc h.1
step-IsStuck (call_again _) h = cc h.1
step-IsStuck fail_close h = cc h.1
step-IsStuck close_channel h = cc h.1
step-IsStuck finish_close h = cc h.0

steps-IsStuck : {s t : Threads} → CloseSteps s t → IsStuck s → IsStuck t
steps-IsStuck stop h = h
steps-IsStuck (step r rs) h = steps-IsStuck rs (step-IsStuck r h)

-- Some steps lead to the return of Close.
abbrev pub CanReturn : Threads → Type 0
CanReturn s = (t : Threads) × CloseSteps s t × (t.closer ≡ closed)

never : (s : Threads) → IsStuck s → CanReturn s → ⊥
never s h (t, rs, e) = cc ((steps-IsStuck rs h).1, e)

-- The goroutine sees the closed channel, unless it wants the lock.
sees : (p : Purger) → p ≢ ticked → CanReturn (record { purger = p; closer = waiting })
sees selecting h = (_, step see_closing (step finish_close stop), refl)
sees ticked h = absurd (h refl)
sees sweeping h = (_, step end_pass (step see_closing (step finish_close stop)), refl)
sees returned h = (_, step finish_close stop, refl)

-- When Close has closed every processor and waits for the goroutine, it can return if the goroutine
-- is not between a tick and the lock; if it is there, Close never returns, whatever steps follow.
pub close_never_returns :
    (p : Purger) → CanReturn (record { purger = p; closer = waiting }) ↔ (p ≢ ticked)
close_never_returns p = (λ r e. never (record { purger = p; closer = waiting }) (e, refl) r, sees p)
