-- ===== src/Trace/Read.antt =====
-- trace_buffer.c: what a reader calls.
use kedr_aux.Prelude.{
  ℕ, zero, suc, ◌+◌, ◌-◌, ◌%◌, ◌^◌, Bool, true, false, Option, none, some, List, [], ◌∷◌,
  if◌then◌else◌,
}
use kedr_aux.Trace.{
  Kernel, LastMessage, TraceBuffer, Code, success, again, no_memory, restart, bug, unfinished,
  last_message_clear, trace_buffer_update_internal, trace_buffer_clear_internal,
}

-- What a call returns: the code, or what `process_data` returned, with the message that it was given.
pub data Outcome (R : Type 0) : Type 0 where
  code : Code → Outcome R
  processed : R → LastMessage → Outcome R

-- what trace_buffer_poll_read returns: 1, 0 or an error
pub data Poll : Type 0 where
  ready not_ready : Poll
  failed : Code → Poll

module _ (k : Kernel) where
  open k use {World, others}

  -- The inner loop, which ends with the code and whether the mutex is held; `go_on` is its next round,
  -- behind schedule and mutex_lock_killable. While the mutex is not held, `readers` is what others do.
  abbrev pub waited :
      (TraceBuffer World → TraceBuffer World)
      → Code × TraceBuffer World
      → (TraceBuffer World → (Code × TraceBuffer World) × Bool)
      → (Code × TraceBuffer World) × Bool
  waited readers (again, tb) go_on =
      if k.fatal_signal_pending tb.world
      then ((restart, tb), true)
      else if k.mutex_lock_killable (readers tb).world
      then go_on (readers tb)
      else ((restart, readers tb), false)
  waited readers (success, tb) go_on = ((success, tb), true)
  waited readers (no_memory, tb) go_on = ((no_memory, tb), true)
  waited readers (restart, tb) go_on = ((restart, tb), true)
  waited readers (bug, tb) go_on = ((bug, tb), true)
  waited readers (unfinished, tb) go_on = ((unfinished, tb), true)

  unfoldable pub wait_from :
      (TraceBuffer World → TraceBuffer World)
      → ℕ
      → TraceBuffer World
      → (Code × TraceBuffer World) × Bool
  unfolding trace_buffer_update_internal
  wait_from readers zero tb = ((unfinished, tb), true)
  wait_from readers (suc rounds) tb =
      waited readers (trace_buffer_update_internal k true tb) (λ t. wait_from readers rounds t)

  module _ {R : Type 0} where
    -- `process_data` returns its result, and whether it sets `consume`
    abbrev pub consumed :
        LastMessage
        → List LastMessage
        → R × Bool
        → TraceBuffer World
        → Outcome R × TraceBuffer World
    consumed oldest ms (r, false) tb = (processed r oldest, tb)
    consumed oldest ms (r, true) tb = (
      processed r oldest,
      record tb {
        last_messages_ordered = last_message_clear oldest ∷ ms;
        non_empty_buffers = (tb.non_empty_buffers + (2 ^ 32 - 1)) % 2 ^ 32;
      },
    )

    abbrev pub read_first :
        (LastMessage → R × Bool)
        → List LastMessage
        → TraceBuffer World
        → Outcome R × TraceBuffer World
    read_first process_data [] tb = (code bug, tb)
    read_first process_data (oldest ∷ ms) tb =
        if oldest.is_exist then consumed oldest ms (process_data oldest) tb else (code again, tb)

    unfoldable pub trace_buffer_read_internal :
        (LastMessage → R × Bool) → TraceBuffer World → Outcome R × TraceBuffer World
    trace_buffer_read_internal process_data tb = read_first process_data tb.last_messages_ordered tb

    -- the part of trace_buffer_read_message behind the waiting, with the mutex held or not; mutex_unlock
    -- of a mutex that is not held is `bug`
    abbrev pub unlocked : Bool → Outcome R × TraceBuffer World → Outcome R × TraceBuffer World
    unlocked true r = r
    unlocked false (o, tb) = (code bug, tb)

    abbrev pub finish_read :
        (LastMessage → R × Bool) → Bool → Code × TraceBuffer World → Outcome R × TraceBuffer World
    finish_read process_data held (success, tb) =
        unlocked held (trace_buffer_read_internal process_data tb)
    finish_read process_data held (again, tb) = unlocked held (code again, tb)
    finish_read process_data held (no_memory, tb) = unlocked held (code no_memory, tb)
    finish_read process_data held (restart, tb) = unlocked held (code restart, tb)
    finish_read process_data held (bug, tb) = (code bug, tb)
    finish_read process_data held (unfinished, tb) = (code unfinished, tb)

    abbrev pub finish_wait :
        (LastMessage → R × Bool) → (Code × TraceBuffer World) × Bool → Outcome R × TraceBuffer World
    finish_wait process_data (r, held) = finish_read process_data held r

    -- The outer loop ends whenever the inner one does.
    abbrev pub wait_if :
        (TraceBuffer World → TraceBuffer World)
        → ℕ
        → (LastMessage → R × Bool)
        → Bool
        → Code × TraceBuffer World
        → Outcome R × TraceBuffer World
    wait_if readers rounds process_data true (again, tb) =
        finish_wait process_data (wait_from readers rounds tb)
    wait_if readers rounds process_data false (again, tb) =
        finish_read process_data true (again, tb)
    wait_if readers rounds process_data should_wait (success, tb) =
        finish_read process_data true (success, tb)
    wait_if readers rounds process_data should_wait (no_memory, tb) =
        finish_read process_data true (no_memory, tb)
    wait_if readers rounds process_data should_wait (restart, tb) =
        finish_read process_data true (restart, tb)
    wait_if readers rounds process_data should_wait (bug, tb) =
        finish_read process_data true (bug, tb)
    wait_if readers rounds process_data should_wait (unfinished, tb) =
        finish_read process_data true (unfinished, tb)

    -- `rounds` bounds the waiting
    unfoldable pub trace_buffer_read_message :
        (TraceBuffer World → TraceBuffer World)
        → ℕ
        → (LastMessage → R × Bool)
        → Bool
        → TraceBuffer World
        → Outcome R × TraceBuffer World
    unfolding wait_from trace_buffer_read_internal trace_buffer_update_internal
    trace_buffer_read_message readers rounds process_data should_wait tb =
        if k.mutex_lock_killable tb.world
        then wait_if readers rounds process_data should_wait
            (trace_buffer_update_internal k false tb)
        else (code restart, tb)

  abbrev pub polled : Code × TraceBuffer World → Poll × TraceBuffer World
  polled (success, tb) = (ready, tb)
  polled (again, tb) = (not_ready, tb)
  polled (no_memory, tb) = (failed no_memory, tb)
  polled (restart, tb) = (failed restart, tb)
  polled (bug, tb) = (failed bug, tb)
  polled (unfinished, tb) = (failed unfinished, tb)

  unfoldable pub trace_buffer_poll_read : TraceBuffer World → Poll × TraceBuffer World
  unfolding trace_buffer_update_internal
  trace_buffer_poll_read tb =
      if k.mutex_lock_killable tb.world
      then polled (trace_buffer_update_internal k true tb)
      else (failed restart, tb)

  unfoldable pub trace_buffer_lost_messages : TraceBuffer World → ℕ
  trace_buffer_lost_messages tb =
      (k.ring_buffer_overruns tb.world + tb.messages_lost_internal) % 2 ^ 64

  -- `locked` tells how mutex_lock_interruptible ends; `false` is -ERESTARTSYS
  unfoldable pub trace_buffer_reset : Bool → List ℕ → TraceBuffer World → Bool × TraceBuffer World
  unfolding trace_buffer_clear_internal
  trace_buffer_reset locked cpus tb =
      if locked then (true, trace_buffer_clear_internal k cpus tb) else (false, tb)

  -- with what ring_buffer_resize returns
  unfoldable pub trace_buffer_resize :
      Bool → List ℕ → ℕ → TraceBuffer World → Option Bool × TraceBuffer World
  unfolding trace_buffer_clear_internal
  trace_buffer_resize locked cpus size tb =
      if locked
      then (
        some (k.ring_buffer_resize tb.world size).0,
        trace_buffer_clear_internal k cpus
            (record tb { world = (k.ring_buffer_resize tb.world size).1 }),
      )
      else (none, tb)
