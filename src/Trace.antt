-- ===== src/Trace.antt =====
-- trace_buffer.c: messages of the processors' sub-buffers, read in the order of their time stamps.
-- What the kernel does is a parameter: its state is `World`, and each call of it is a function of that
-- state. `others` is what other code may do between two calls.
use kedr_aux.Prelude.{
  ℕ, zero, suc, ◌+◌, ◌-◌, ◌*◌, ◌/◌, ◌%◌, ◌^◌, Bool, true, false, ◌||◌, Option, none, some, List, [],
  ◌∷◌, ◌==◌, leb, length, if◌then◌else◌,
}
pub mod Read
pub mod Kept
pub mod Loop
pub mod Order
pub mod Reads
pub mod Runs
pub mod Prompt
mod Tests

-- struct ring_buffer_event, with the time stamp that goes with it
pub record Event : Type 0 where
  pub ts : ℕ
  pub content : List ℕ

pub record Kernel : Type 1 where
  pub World : Type 0
  pub others : World → World
  pub ring_buffer_time_stamp : World → ℕ → ℕ
  pub ring_buffer_consume : World → ℕ → Option Event × World
  pub ring_buffer_reset : World → World
  pub ring_buffer_overruns : World → ℕ
  pub ring_buffer_write : World → List ℕ → World
  pub ring_buffer_resize : World → ℕ → Bool × World
  pub krealloc : World → Bool
  pub mutex_lock_killable : World → Bool
  pub fatal_signal_pending : World → Bool
  pub hz : ℕ

-- struct last_message; `size` is the length of `msg`, and a NULL in `msg` is an empty list
pub record LastMessage : Type 0 where
  pub cpu : ℕ
  pub ts : ℕ
  pub is_exist : Bool
  pub msg : List ℕ

-- struct trace_buffer, whose ring buffer is in `world`. `wakeup` is the delay of the work that is to
-- wake the reader up.
pub record TraceBuffer (World : Type 0) : Type 0 where
  pub world : World
  pub last_messages_ordered : List LastMessage
  pub non_empty_buffers : ℕ
  pub messages_lost_internal : ℕ
  pub wakeup : Option ℕ

-- What the functions return: 0, -EAGAIN, -ENOMEM and -ERESTARTSYS. `bug` is a BUG_ON, or the first
-- entry of an empty list, and `unfinished` a loop that has no round left.
pub data Code : Type 0 where
  success again no_memory restart bug unfinished : Code

abbrev pub last_message_init : ℕ → ℕ → LastMessage
last_message_init cpu ts = record { cpu = cpu; ts = ts; is_exist = false; msg = [] }

-- `none` is the BUG_ON, and `false` is -ENOMEM
abbrev pub last_message_set : Bool → Event → LastMessage → Option (Bool × LastMessage)
last_message_set grown event message =
    if message.is_exist
    then none
    else if grown
    then some (true, record message { is_exist = true; msg = event.content })
    else some (false, record message { msg = [] })

abbrev pub last_message_clear : LastMessage → LastMessage
last_message_clear message = record message { is_exist = false }

-- The insertion of an entry: list_for_each_prev looks for a place behind the last entry that is not
-- younger, from the end of the list on. `none` means that there is none from here on.
abbrev pub behind_this :
    LastMessage
    → LastMessage
    → List LastMessage
    → Option (List LastMessage)
    → Option (List LastMessage)
behind_this m x xs (some ys) = some (x ∷ ys)
behind_this m x xs none = if leb x.ts m.ts then some (x ∷ m ∷ xs) else none

unfoldable pub find_place : LastMessage → List LastMessage → Option (List LastMessage)
find_place m [] = none
find_place m (x ∷ xs) = behind_this m x xs (find_place m xs)

abbrev pub at_front : LastMessage → List LastMessage → Option (List LastMessage) → List LastMessage
at_front m xs (some ys) = ys
at_front m xs none = m ∷ xs

unfoldable pub list_insert : LastMessage → List LastMessage → List LastMessage
unfolding find_place
list_insert m xs = at_front m xs (find_place m xs)

unfoldable pub cpumask_test_cpu : ℕ → List ℕ → Bool
cpumask_test_cpu cpu [] = false
cpumask_test_cpu cpu (c ∷ mask) = (c == cpu) || cpumask_test_cpu cpu mask

-- the loops over the possible processors, with the message that each one gets
unfoldable pub insert_cpus : (ℕ → LastMessage) → List ℕ → List LastMessage → List LastMessage
unfolding list_insert
insert_cpus message [] ordered = ordered
insert_cpus message (cpu ∷ cpus) ordered =
    insert_cpus message cpus (list_insert (message cpu) ordered)

-- trace_buffer->last_messages[cpu]
unfoldable pub message_of : ℕ → List LastMessage → LastMessage
message_of cpu [] = last_message_init cpu 0
message_of cpu (m ∷ ms) = let rest = message_of cpu ms in if m.cpu == cpu then m else rest

-- schedule_delayed_work does nothing if the work is scheduled already
abbrev pub schedule_delayed_work : ℕ → Option ℕ → Option ℕ
schedule_delayed_work delay (some d) = some d
schedule_delayed_work delay none = some delay

-- What a round does behind last_message_set; `goes_on` is the rest of the loop.
abbrev pub stored :
    {World : Type 0}
    → Option (Bool × LastMessage)
    → List LastMessage
    → World
    → (TraceBuffer World → Code × TraceBuffer World)
    → TraceBuffer World
    → Code × TraceBuffer World
stored none ms world goes_on tb = (bug, tb)
stored (some (true, message)) ms world goes_on tb = goes_on (record tb {
  world = world;
  last_messages_ordered = list_insert message ms;
  non_empty_buffers = tb.non_empty_buffers + 1;
})
stored (some (false, message)) ms world goes_on tb = (
  no_memory,
  record tb {
    world = world;
    last_messages_ordered = list_insert message ms;
    messages_lost_internal = (tb.messages_lost_internal + 1) % 2 ^ 64;
  },
)

module _ (k : Kernel) where
  open k use {World, others, ring_buffer_time_stamp, ring_buffer_consume}

  unfoldable pub trace_buffer_alloc : Bool → Bool → List ℕ → World → Option (TraceBuffer World)
  unfolding insert_cpus
  trace_buffer_alloc allocated allocated' cpus world =
      if allocated
      then (if allocated'
          then some (record {
            world = world;
            last_messages_ordered =
                insert_cpus (λ cpu. last_message_init cpu (ring_buffer_time_stamp world cpu)) cpus
                  [];
            non_empty_buffers = 0;
            messages_lost_internal = 0;
            wakeup = none;
          })
          else none)
      else none

  unfoldable pub trace_buffer_clear_internal : List ℕ → TraceBuffer World → TraceBuffer World
  unfolding insert_cpus message_of
  trace_buffer_clear_internal cpus tb = record tb {
    world = k.ring_buffer_reset tb.world;
    last_messages_ordered =
        insert_cpus
          (λ cpu. record (last_message_clear (message_of cpu tb.last_messages_ordered)) {
            ts = ring_buffer_time_stamp tb.world cpu;
          })
          cpus [];
    non_empty_buffers = 0;
    messages_lost_internal = 0;
  }

  unfoldable pub trace_buffer_write_message : List ℕ → TraceBuffer World → TraceBuffer World
  trace_buffer_write_message msg tb = record tb { world = k.ring_buffer_write tb.world msg }

  -- what is done on the return of -EAGAIN; `waits` tells whether a wait function is given
  abbrev pub schedule_wakeup : Bool → TraceBuffer World → TraceBuffer World
  schedule_wakeup waits tb =
      if waits
      then record tb {
        wakeup =
            schedule_delayed_work ((if tb.non_empty_buffers == 0 then 500 else 1) * k.hz / 1000)
              tb.wakeup;
      }
      else tb

  -- a round behind ring_buffer_consume
  abbrev pub fetched :
      LastMessage
      → List LastMessage
      → ℕ
      → Option Event × World
      → (TraceBuffer World → Code × TraceBuffer World)
      → TraceBuffer World
      → Code × TraceBuffer World
  fetched oldest ms ts (none, world) goes_on tb = goes_on (record tb {
    world = world;
    last_messages_ordered = list_insert (record oldest { ts = ts }) ms;
  })
  fetched oldest ms ts (some event, world) goes_on tb =
      stored (last_message_set (k.krealloc world) event (record oldest { ts = event.ts })) ms world
        goes_on tb

  -- The loop of trace_buffer_update_internal, with the processors of `subbuffers_updated`. The first
  -- entry is given apart.
  abbrev pub by_first :
      Bool
      → List ℕ
      → List LastMessage
      → (List ℕ → TraceBuffer World → Code × TraceBuffer World)
      → TraceBuffer World
      → Code × TraceBuffer World
  by_first waits mask [] goes_on tb = (bug, tb)
  by_first waits mask (oldest ∷ ms) goes_on tb =
      if oldest.is_exist
      then (success, tb)
      else if cpumask_test_cpu oldest.cpu mask
      then (again, schedule_wakeup waits tb)
      else fetched oldest ms (ring_buffer_time_stamp (others tb.world) oldest.cpu)
          (ring_buffer_consume (others (others tb.world)) oldest.cpu) (goes_on (oldest.cpu ∷ mask))
          tb

  unfoldable pub update_from : ℕ → Bool → List ℕ → TraceBuffer World → Code × TraceBuffer World
  unfolding list_insert cpumask_test_cpu
  update_from zero waits mask tb = (unfinished, tb)
  update_from (suc rounds) waits mask tb =
      by_first waits mask tb.last_messages_ordered (λ mask' tb'. update_from rounds waits mask' tb')
        tb

  -- a round for each entry and one more
  unfoldable pub trace_buffer_update_internal : Bool → TraceBuffer World → Code × TraceBuffer World
  unfolding update_from
  trace_buffer_update_internal waits tb =
      update_from (suc (length tb.last_messages_ordered)) waits [] tb
