-- ===== src/Trace/Loop.antt =====
-- A rule for the loop of trace_buffer_update_internal.
use kedr_aux.Prelude.{
  ℕ, zero, suc, ◌+◌, ◌%◌, ◌^◌, ◌<◌, Bool, true, false, Option, none, some, List, [], ◌∷◌, ◌≡◌, refl,
  arith, length, Bool-cases, Option-cases, inl, inr,
}
use kedr_aux.Trace.{
  Kernel, Event, LastMessage, TraceBuffer, Code, success, again, no_memory, list_insert,
  cpumask_test_cpu, by_first, schedule_wakeup, update_from, trace_buffer_update_internal,
}
use kedr_aux.Trace.Kept.{
  Sorted, count, unmarked, list_insert-Placed, Placed-Sorted, length-Placed, count-unmarked_suc,
  count-le-length,
}

module _ (k : Kernel) where
  open k use {World, others, ring_buffer_time_stamp, ring_buffer_consume}

  -- what ring_buffer_consume returns in a round for a processor
  abbrev pub fetch : TraceBuffer World → ℕ → Option Event × World
  fetch tb cpu = ring_buffer_consume (others (others tb.world)) cpu

  -- the entry and the list behind a round that finds no event
  abbrev pub emptied : LastMessage → TraceBuffer World → LastMessage
  emptied m tb = record m { ts = ring_buffer_time_stamp (others tb.world) m.cpu }

  abbrev pub behind_empty : LastMessage → List LastMessage → TraceBuffer World → TraceBuffer World
  behind_empty m ms tb = record tb {
    world = (fetch tb m.cpu).1;
    last_messages_ordered = list_insert (emptied m tb) ms;
  }

  -- and behind one that finds one
  abbrev pub filled : LastMessage → Event → LastMessage
  filled m e = record m { ts = e.ts; is_exist = true; msg = e.content }

  abbrev pub behind_event :
      LastMessage → List LastMessage → Event → TraceBuffer World → TraceBuffer World
  behind_event m ms e tb = record tb {
    world = (fetch tb m.cpu).1;
    last_messages_ordered = list_insert (filled m e) ms;
    non_empty_buffers = tb.non_empty_buffers + 1;
  }

  -- and behind one whose event is lost for want of memory
  abbrev pub dropped : LastMessage → Event → LastMessage
  dropped m e = record m { ts = e.ts; is_exist = false; msg = [] }

  abbrev pub behind_failure :
      LastMessage → List LastMessage → Event → TraceBuffer World → TraceBuffer World
  behind_failure m ms e tb = record tb {
    world = (fetch tb m.cpu).1;
    last_messages_ordered = list_insert (dropped m e) ms;
    messages_lost_internal = (tb.messages_lost_internal + 1) % 2 ^ 64;
  }

  -- an entry that is updated in a round
  pub record Updates (mask : List ℕ) (tb : TraceBuffer World) (m : LastMessage)
      (ms : List LastMessage) : Type 0 where
    pub first : tb.last_messages_ordered ≡ m ∷ ms
    pub empty : m.is_exist ≡ false
    pub new : cpumask_test_cpu m.cpu mask ≡ false
    pub sorted : Sorted ms

  -- where the loop ends, from a state that has the property `I`
  pub data Ends (I : List ℕ → TraceBuffer World → Type 0) (waits : Bool)
      : Code × TraceBuffer World → Type 0 where
    readable :
        {mask : List ℕ} {tb : TraceBuffer World} (m : LastMessage) (ms : List LastMessage)
        → I mask tb
        → tb.last_messages_ordered ≡ m ∷ ms
        → Sorted tb.last_messages_ordered
        → m.is_exist ≡ true
        → Ends I waits (success, tb)
    blocked :
        {tb : TraceBuffer World} (mask : List ℕ) (m : LastMessage) (ms : List LastMessage)
        → I mask tb
        → tb.last_messages_ordered ≡ m ∷ ms
        → Sorted tb.last_messages_ordered
        → m.is_exist ≡ false
        → cpumask_test_cpu m.cpu mask ≡ true
        → Ends I waits (again, schedule_wakeup k waits tb)
    lost :
        {tb : TraceBuffer World} (mask : List ℕ) (m : LastMessage) (ms : List LastMessage)
        (e : Event)
        → I mask tb
        → Updates mask tb m ms
        → (fetch tb m.cpu).0 ≡ some e
        → k.krealloc (fetch tb m.cpu).1 ≡ false
        → Ends I waits (no_memory, behind_failure m ms e tb)

  module _ (I : List ℕ → TraceBuffer World → Type 0) (waits : Bool)
      (keep_empty : (mask : List ℕ) (tb : TraceBuffer World) (m : LastMessage)
          (ms : List LastMessage)
        → I mask tb
        → Updates mask tb m ms
        → (fetch tb m.cpu).0 ≡ none
        → I (m.cpu ∷ mask) (behind_empty m ms tb))
      (keep_event : (mask : List ℕ) (tb : TraceBuffer World) (m : LastMessage)
          (ms : List LastMessage) (e : Event)
        → I mask tb
        → Updates mask tb m ms
        → (fetch tb m.cpu).0 ≡ some e
        → I (m.cpu ∷ mask) (behind_event m ms e tb)) where
    -- `goes_on` of a round, which is at hand when the rest of the loop ends so
    round-Ends :
        (mask : List ℕ) (tb : TraceBuffer World) (m : LastMessage) (ms : List LastMessage)
        (goes_on : List ℕ → TraceBuffer World → Code × TraceBuffer World)
        → I mask tb
        → tb.last_messages_ordered ≡ m ∷ ms
        → Sorted (m ∷ ms)
        → ((tb' : TraceBuffer World)
            → I (m.cpu ∷ mask) tb'
            → Sorted tb'.last_messages_ordered
            → count (unmarked (m.cpu ∷ mask)) tb'.last_messages_ordered
              < count (unmarked mask) (m ∷ ms)
            → 0 < length tb'.last_messages_ordered
            → Ends I waits (goes_on (m.cpu ∷ mask) tb'))
        → Ends I waits (by_first k waits mask (m ∷ ms) goes_on tb)
    round-Ends mask tb m ms goes_on i f s rest = elim (Bool-cases m.is_exist) [
      | inl x ↦ simp x (readable m ms i f (rw f s) x)
      | inr x ↦ elim (Bool-cases (cpumask_test_cpu m.cpu mask)) [
        | inl y ↦ simp (x, y) (blocked mask m ms i f (rw f s) x y)
        | inr y ↦
            simp (x, y)
              (let u : Updates mask tb m ms = record {
                first = f;
                empty = x;
                new = y;
                sorted = s.1;
              } in
                elim (Option-cases (fetch tb m.cpu).0) [
                  | inl e ↦
                      let p = list_insert-Placed (emptied m tb) ms s.1 in
                      rw e (
                        rest (behind_empty m ms tb) (keep_empty mask tb m ms i u e)
                          (Placed-Sorted p s.1)
                          (count-unmarked_suc mask m (emptied m tb) ms _ refl y p)
                          (omega (arith, length-Placed p)))
                  | inr (ev, e) ↦
                      let p = list_insert-Placed (filled m ev) ms s.1 in
                      elim (Bool-cases (k.krealloc (fetch tb m.cpu).1)) [
                        | inl z ↦ rw e (
                            simp (x, z)
                              (rest (behind_event m ms ev tb) (keep_event mask tb m ms ev i u e)
                                (Placed-Sorted p s.1)
                                (count-unmarked_suc mask m (filled m ev) ms _ refl y p)
                                (omega (arith, length-Placed p))))
                        | inr z ↦ rw e (simp (x, z) (lost mask m ms ev i u e z))
                      ]
                ])
      ]
    ]

    update_from-Ends :
        (rounds : ℕ) (mask : List ℕ) (tb : TraceBuffer World)
        → I mask tb
        → Sorted tb.last_messages_ordered
        → 0 < length tb.last_messages_ordered
        → count (unmarked mask) tb.last_messages_ordered < rounds
        → Ends I waits (update_from k rounds waits mask tb)
    unfolding update_from
    update_from-Ends zero mask tb i s l c = absurd (omega (arith, c))
    update_from-Ends (suc rounds) mask tb i s l c =
        by_list tb.last_messages_ordered refl s l c
          (λ tb' m i' s' l' c'. update_from-Ends rounds (m ∷ mask) tb' i' s' l' c')
      where
        by_list :
            (ms : List LastMessage)
            → tb.last_messages_ordered ≡ ms
            → Sorted ms
            → 0 < length ms
            → count (unmarked mask) ms < suc rounds
            → ((tb' : TraceBuffer World) (m : ℕ)
                → I (m ∷ mask) tb'
                → Sorted tb'.last_messages_ordered
                → 0 < length tb'.last_messages_ordered
                → count (unmarked (m ∷ mask)) tb'.last_messages_ordered < rounds
                → Ends I waits (update_from k rounds waits (m ∷ mask) tb'))
            → Ends I waits
                (by_first k waits mask ms (λ mask' tb'. update_from k rounds waits mask' tb') tb)
        by_list [] f s l c rest = absurd (omega (arith, l))
        by_list (m ∷ ms) f s l c rest =
            round-Ends mask tb m ms (λ mask' tb'. update_from k rounds waits mask' tb') i f s
              (λ tb' i' s' d l'. rest tb' m.cpu i' s' l' (omega (arith, c, d)))

    -- the loop ends, in one of the three ways
    pub trace_buffer_update_internal-Ends :
        (tb : TraceBuffer World)
        → I [] tb
        → Sorted tb.last_messages_ordered
        → 0 < length tb.last_messages_ordered
        → Ends I waits (trace_buffer_update_internal k waits tb)
    unfolding trace_buffer_update_internal
    trace_buffer_update_internal-Ends tb i s l =
        update_from-Ends (suc (length tb.last_messages_ordered)) [] tb i s l
          (omega (arith, count-le-length (unmarked []) tb.last_messages_ordered))
