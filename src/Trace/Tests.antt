-- ===== src/Trace/Tests.antt =====
-- A kernel with messages for one processor, whose time stamps are numbers in a row.
use kedr_aux.Prelude.{
  ℕ, zero, suc, ◌+◌, ◌≤◌, Bool, true, false, Option, none, some, List, [], ◌∷◌, ◌==◌, ◌≡◌, ◌⊎◌,
  refl, ap, subst, arith,
}
use kedr_aux.Trace.{
  Kernel, Event, LastMessage, TraceBuffer, success, no_memory, trace_buffer_update_internal,
}
use kedr_aux.Trace.Kept.{count}
use kedr_aux.Trace.Order.{Laws, NotBefore, Ordered}
use kedr_aux.Trace.Read.{processed, trace_buffer_read_message}
use kedr_aux.Trace.Reads.{ReadResult, trace_buffer_read_message-ReadResult}
use kedr_aux.Trace.Runs.{begin, reads, Run-Descending, Descending}
use kedr_aux.Trace.Prompt.{update_prompt}

-- how many messages are left, the time stamp of the next one, and whether the mutex can be taken
record Row : Type 0 where
  left : ℕ
  next : ℕ
  unlocked : Bool

abbrev upwards : ℕ → ℕ → List Event
upwards zero t = []
upwards (suc n) t = record { ts = t; content = b'm' ∷ [] } ∷ upwards n (suc t)

abbrev pop : ℕ → ℕ → Bool → Option Event × Row
pop zero t u = (none, record { left = 0; next = t; unlocked = u })
pop (suc n) t u =
    (some (record { ts = t; content = b'm' ∷ [] }), record { left = n; next = suc t; unlocked = u })

-- only the first processor has messages
abbrev take_next : Bool → Row → Option Event × Row
take_next true w = pop w.left w.next w.unlocked
take_next false w = (none, w)

abbrev waiting_in : Bool → Row → List Event
waiting_in true w = upwards w.left w.next
waiting_in false w = []

abbrev row_kernel : Kernel
row_kernel = record {
  World = Row;
  others = λ w. w;
  ring_buffer_time_stamp = λ w cpu. w.next + w.left;
  ring_buffer_consume = λ w cpu. take_next (cpu == 0) w;
  ring_buffer_reset = λ w. record w { left = 0 };
  ring_buffer_overruns = λ w. 0;
  ring_buffer_write = λ w msg. record w { left = suc w.left };
  ring_buffer_resize = λ w size. (true, w);
  krealloc = λ w. true;
  mutex_lock_killable = λ w. w.unlocked;
  fatal_signal_pending = λ w. false;
  hz = 250;
}

abbrev row_pending : Row → ℕ → List Event
row_pending w cpu = waiting_in (cpu == 0) w

upwards-NotBefore : (n s t : ℕ) → s ≤ t → NotBefore s (upwards n t)
upwards-NotBefore zero s t h = tt
upwards-NotBefore (suc n) s t h = (h, upwards-NotBefore n s (suc t) (omega (arith, h)))

abbrev row : ℕ → ℕ → Bool → Row
row n t u = record { left = n; next = t; unlocked = u }

none_left :
    (b : Bool) (n t : ℕ) (u : Bool)
    → (take_next b (row n t u)).0 ≡ none
    → waiting_in b (take_next b (row n t u)).1 ≡ []
none_left false n t u e = refl
none_left true zero t u e = refl
none_left true (suc n) t u e = cc

some_left :
    (b : Bool) (n t : ℕ) (u : Bool) (e : Event)
    → (take_next b (row n t u)).0 ≡ some e
    → waiting_in b (row n t u) ≡ e ∷ waiting_in b (take_next b (row n t u)).1
some_left false n t u e h = cc
some_left true zero t u e h = cc
some_left true (suc n) t u e h = cc

other_left :
    (b c : Bool) (n t : ℕ) (u : Bool)
    → (b ≡ true → c ≡ true → ⊥)
    → waiting_in c (take_next b (row n t u)).1 ≡ waiting_in c (row n t u)
other_left false c n t u h = refl
other_left true false n t u h = refl
other_left true true n t u h = absurd (h refl refl)

same_stamp :
    (b : Bool) (n t : ℕ) (u : Bool)
    → (take_next b (row n t u)).1.next + (take_next b (row n t u)).1.left ≡ t + n
same_stamp false n t u = refl
same_stamp true zero t u = refl
same_stamp true (suc n) t u = omega arith

upwards_in_order :
    (b : Bool) (n t : ℕ) (u : Bool) (e : Event) (es : List Event)
    → waiting_in b (row n t u) ≡ e ∷ es
    → NotBefore e.ts es × (e.ts ≤ t + n)
upwards_in_order false n t u e es h = absurd cc
upwards_in_order true zero t u e es h = absurd cc
upwards_in_order true (suc n) t u e es h =
    let f : upwards n (suc t) ≡ es = cc in
    let g : record { ts = t; content = b'm' ∷ [] } ≡ e = cc in
    let ts : t ≡ e.ts = ap (λ x. x.ts) g in
    (
      subst (NotBefore e.ts) f (upwards-NotBefore n e.ts (suc t) (omega (arith, ts))),
      omega (arith, ts),
    )

row_laws : Laws row_kernel
row_laws = record {
  pending = row_pending;
  others_pending = λ w cpu t n l. n;
  others_stamp = λ w cpu. omega arith;
  consume_none = λ w cpu e. none_left (cpu == 0) w.left w.next w.unlocked e;
  consume_some = λ w cpu e h. some_left (cpu == 0) w.left w.next w.unlocked e h;
  consume_others = λ w cpu c h.
      other_left (cpu == 0) (c == 0) w.left w.next w.unlocked (λ f g. ground (arith, f, g, h));
  consume_stamp = λ w cpu c. same_stamp (cpu == 0) w.left w.next w.unlocked;
  in_order = λ w cpu e es h. upwards_in_order (cpu == 0) w.left w.next w.unlocked e es h;
}

abbrev no_message : ℕ → ℕ → LastMessage
no_message cpu ts = record { cpu = cpu; ts = ts; is_exist = false; msg = [] }

abbrev message : ℕ → LastMessage
message ts = record { cpu = 0; ts = ts; is_exist = true; msg = b'm' ∷ [] }

-- two messages wait for the first of two processors
abbrev two_waiting : TraceBuffer Row
two_waiting = record {
  world = row 2 5 true;
  last_messages_ordered = no_message 0 3 ∷ no_message 1 4 ∷ [];
  non_empty_buffers = 0;
  messages_lost_internal = 0;
  wakeup = none;
}

abbrev one_read : TraceBuffer Row
one_read = record two_waiting {
  world = row 1 6 true;
  last_messages_ordered = record (message 5) { is_exist = false } ∷ no_message 1 7 ∷ [];
}

two_waiting-Ordered : Ordered row_kernel row_laws 0 two_waiting
unfolding count row_laws
two_waiting-Ordered = record {
  sorted = omega arith;
  one_entry = omega arith;
  entries = (
    (record { waiting = omega arith; past = omega arith }, omega arith),
    ((record { waiting = tt; past = omega arith }, omega arith), tt),
  );
  counted = refl;
  few = omega arith;
}

read_one :
    trace_buffer_read_message row_kernel (λ t. t) 0 (λ m. (m.ts, true)) false two_waiting
    ≡ (processed 5 (message 5), one_read)
unfolding trace_buffer_read_message
read_one = refl

Run-Descending_example : Descending 0 (5 ∷ []) × Ordered row_kernel row_laws 5 one_read
Run-Descending_example =
    Run-Descending row_kernel row_laws (λ t. t) (λ floor tb o. o) (λ m. (m.ts, true)) 0
      two_waiting-Ordered (reads 0 false 5 (message 5) begin read_one)

trace_buffer_read_message-ReadResult_example :
    ReadResult row_kernel row_laws 0 false
      (trace_buffer_read_message row_kernel (λ t. t) 0 (λ m. (m.ts, true)) false two_waiting)
trace_buffer_read_message-ReadResult_example =
    trace_buffer_read_message-ReadResult row_kernel row_laws (λ t. t) (λ floor tb o. o)
      (λ m. (m.ts, true)) 0 0 false two_waiting two_waiting-Ordered

-- a message with the time stamp 5 is held, and the clock is at 7
abbrev one_held : TraceBuffer Row
one_held = record two_waiting {
  world = row 1 6 true;
  last_messages_ordered = no_message 1 4 ∷ message 5 ∷ [];
  non_empty_buffers = 1;
}

update_prompt_example :
    ((trace_buffer_update_internal row_kernel false one_held).0 ≡ success)
    ⊎ ((trace_buffer_update_internal row_kernel false one_held).0 ≡ no_memory)
unfolding count
update_prompt_example =
    update_prompt row_kernel row_laws 7 false one_held (omega arith) (λ cpu. ground arith)
      (λ cpu. omega arith) (omega arith)
