-- ===== src/Trace/Reads.antt =====
-- What a reader gets.
use kedr_aux.Prelude.{
  ℕ, zero, suc, ◌+◌, ◌-◌, ◌%◌, ◌^◌, ◌≤◌, ◌<◌, Bool, true, false, some, List, [], ◌∷◌, ◌≡◌, ◌⊎◌,
  refl, sym, ap, ◌∙◌, subst, arith, length, Bool-cases, inl, inr,
}
use kedr_aux.Trace.{
  Kernel, Event, LastMessage, TraceBuffer, Code, success, again, no_memory, restart, bug,
  unfinished, schedule_wakeup, trace_buffer_update_internal,
}
use kedr_aux.Trace.Kept.{
  All, Sorted, count, list_insert-Placed, Placed-Sorted, Placed-All, Placed-count, length-Placed,
  count-le-length,
}
use kedr_aux.Trace.Loop.{fetch, dropped, behind_failure, Updates, Ends, readable, blocked, lost}
use kedr_aux.Trace.Order.{Laws, InTime, Entries, Ordered, update-Ends, event-InTime, rest-InTime}
use kedr_aux.Trace.Read.{
  Outcome, code, processed, consumed, read_first, trace_buffer_read_internal, finish_read,
  finish_wait, waited, wait_from, wait_if, trace_buffer_read_message,
}

module _ (k : Kernel) (laws : Laws k) where
  open k use {World}

  not_empty : (xs ys : List LastMessage) (m : LastMessage) → xs ≡ m ∷ ys → 0 < length xs
  not_empty xs ys m e = omega (arith, ap length e)

  ordered_lem :
      (floor : ℕ) (mask : List ℕ) (tb : TraceBuffer World)
      → Entries k laws floor mask tb
      → Sorted tb.last_messages_ordered
      → 0 < length tb.last_messages_ordered
      → Ordered k laws floor tb
  ordered_lem floor mask tb (a, c, n) s l = record {
    sorted = s;
    one_entry = l;
    entries = a;
    counted = c;
    few = n;
  }

  failure-Ordered :
      (floor : ℕ) (mask : List ℕ) (tb : TraceBuffer World) (m : LastMessage) (ms : List LastMessage)
      (e : Event)
      → Entries k laws floor mask tb
      → Updates k mask tb m ms
      → (fetch k tb m.cpu).0 ≡ some e
      → Ordered k laws floor (behind_failure k m ms e tb)
  unfolding count
  failure-Ordered floor mask tb m ms e i u q =
      let (h, t) = rest-InTime k laws floor mask tb m ms i u.first in
      let p = list_insert-Placed (dropped k m e) ms u.sorted in
      record {
        sorted = Placed-Sorted p u.sorted;
        one_entry = omega (arith, length-Placed p);
        entries =
            Placed-All (InTime k laws floor (fetch k tb m.cpu).1) p
              (event-InTime k laws floor tb m (dropped k m e) e h q refl refl) t;
        counted =
            i.1
            ∙ ap (count (λ x. x.is_exist)) u.first
            ∙ same u.empty
            ∙ sym (Placed-count (λ x. x.is_exist) p);
        few = omega (arith, i.2, ap length u.first, length-Placed p);
      }
    where
      same :
          m.is_exist ≡ false
          → count (λ x. x.is_exist) (m ∷ ms) ≡ count (λ x. x.is_exist) (dropped k m e ∷ ms)
      same z = ground (arith, z)

  -- the ways in which trace_buffer_update_internal ends
  pub data Updated (floor : ℕ) : Code × TraceBuffer World → Type 0 where
    message_first :
        {tb : TraceBuffer World} (m : LastMessage) (ms : List LastMessage)
        → Ordered k laws floor tb
        → tb.last_messages_ordered ≡ m ∷ ms
        → m.is_exist ≡ true
        → Updated floor (success, tb)
    not_now : {tb : TraceBuffer World} → Ordered k laws floor tb → Updated floor (again, tb)
    message_lost :
        {tb : TraceBuffer World} → Ordered k laws floor tb → Updated floor (no_memory, tb)

  schedule-Ordered :
      (floor : ℕ) (waits : Bool) (tb : TraceBuffer World)
      → Ordered k laws floor tb
      → Ordered k laws floor (schedule_wakeup k waits tb)
  schedule-Ordered floor true tb o = record {
    sorted = o.sorted;
    one_entry = o.one_entry;
    entries = o.entries;
    counted = o.counted;
    few = o.few;
  }
  schedule-Ordered floor false tb o = o

  of_Ends :
      (floor : ℕ) (waits : Bool) {r : Code × TraceBuffer World}
      → Ends k (Entries k laws floor) waits r
      → Updated floor r
  of_Ends floor waits (readable {mask} {tb} m ms i f s x) =
      message_first m ms (ordered_lem floor mask tb i s (not_empty _ ms m f)) f x
  of_Ends floor waits (blocked {tb} mask m ms i f s x y) =
      not_now (schedule-Ordered floor waits tb (ordered_lem floor mask tb i s (not_empty _ ms m f)))
  of_Ends floor waits (lost {tb} mask m ms e i u q z) =
      message_lost (failure-Ordered floor mask tb m ms e i u q)

  pub update-Updated :
      (floor : ℕ) (waits : Bool) (tb : TraceBuffer World)
      → Ordered k laws floor tb
      → Updated floor (trace_buffer_update_internal k waits tb)
  update-Updated floor waits tb o = of_Ends floor waits (update-Ends k laws floor waits tb o)

  raise_floor :
      (floor : ℕ) (tb : TraceBuffer World) (m : LastMessage) (ms : List LastMessage)
      → Ordered k laws floor tb
      → tb.last_messages_ordered ≡ m ∷ ms
      → (floor ≤ m.ts) × All (InTime k laws m.ts tb.world) (m ∷ ms) × Sorted (m ∷ ms)
  raise_floor floor tb m ms o f =
      let (h, t) = subst (All (InTime k laws floor tb.world)) f o.entries in
      let (l, s) = subst Sorted f o.sorted in (h.1, ((h.0, omega arith), both ms t l), (l, s))
    where
      both :
          (xs : List LastMessage)
          → All (InTime k laws floor tb.world) xs
          → All (λ y. m.ts ≤ y.ts) xs
          → All (InTime k laws m.ts tb.world) xs
      both [] a l = tt
      both (x ∷ xs) (a, b) (l, t) = ((a.0, l), both xs b t)

  module _ {R : Type 0} where
    -- What a read may return, of a reader that has read all messages before `floor`: a message that is
    -- not before it, with no message before that one still to come; or an error, with nothing read.
    -- With `should_wait`, mutex_unlock may be called without the mutex, or the rounds not suffice.
    pub data ReadResult (floor : ℕ) (should_wait : Bool)
        : Outcome R × TraceBuffer World → Type 0 where
      got :
          {tb : TraceBuffer World} (r : R) (m : LastMessage)
          → floor ≤ m.ts
          → Ordered k laws m.ts tb
          → ReadResult floor should_wait (processed r m, tb)
      refused :
          {tb : TraceBuffer World} (c : Code)
          → (c ≡ again) ⊎ ((c ≡ no_memory) ⊎ (c ≡ restart))
          → Ordered k laws floor tb
          → ReadResult floor should_wait (code c, tb)
      not_locked :
          {tb : TraceBuffer World}
          → should_wait ≡ true
          → ReadResult floor should_wait (code bug, tb)
      waiting :
          {tb : TraceBuffer World}
          → should_wait ≡ true
          → ReadResult floor should_wait (code unfinished, tb)

    consumed-ReadResult :
        (floor : ℕ) (w : Bool) (tb : TraceBuffer World) (m : LastMessage) (ms : List LastMessage)
        (r : R × Bool)
        → Ordered k laws floor tb
        → tb.last_messages_ordered ≡ m ∷ ms
        → m.is_exist ≡ true
        → ReadResult floor w (consumed k m ms r tb)
    unfolding count
    consumed-ReadResult floor w tb m ms (r, false) o f x =
        let (l, a, s) = raise_floor floor tb m ms o f in
        got r m l (record {
          sorted = o.sorted;
          one_entry = o.one_entry;
          entries = subst (All (InTime k laws m.ts tb.world)) (sym f) a;
          counted = o.counted;
          few = o.few;
        })
    consumed-ReadResult floor w tb m ms (r, true) o f x =
        let (l, a, s) = raise_floor floor tb m ms o f in
        got r m l (record {
          sorted = s;
          one_entry = omega arith;
          entries = (a.0, a.1);
          counted = fewer (ap (count (λ y. y.is_exist)) f);
          few = omega (arith, o.few, ap length f);
        })
      where
        fewer :
            count (λ y. y.is_exist) tb.last_messages_ordered ≡ count (λ y. y.is_exist) (m ∷ ms)
            → (tb.non_empty_buffers + (2 ^ 32 - 1)) % 2 ^ 32 ≡ 0 + count (λ y. y.is_exist) ms
        fewer q =
            let one : count (λ y. y.is_exist) (m ∷ ms) ≡ 1 + count (λ y. y.is_exist) ms =
              ground (arith, x) in
            omega
              (arith, q, one, o.counted, o.few, ap length f, count-le-length (λ y. y.is_exist) ms)

    read_first-ReadResult :
        (process_data : LastMessage → R × Bool) (floor : ℕ) (w : Bool) (tb : TraceBuffer World)
        (m : LastMessage) (ms : List LastMessage)
        → Ordered k laws floor tb
        → tb.last_messages_ordered ≡ m ∷ ms
        → m.is_exist ≡ true
        → ReadResult floor w (trace_buffer_read_internal k process_data tb)
    unfolding trace_buffer_read_internal
    read_first-ReadResult process_data floor w tb m ms o f x =
        subst (λ xs. ReadResult floor w (read_first k process_data xs tb)) (sym f)
          (simp x (consumed-ReadResult floor w tb m ms (process_data m) o f x))

    finish-ReadResult :
        (process_data : LastMessage → R × Bool) (floor : ℕ) (w : Bool)
        {r : Code × TraceBuffer World}
        → Updated floor r
        → ReadResult floor w (finish_read k process_data true r)
    finish-ReadResult process_data floor w (message_first {tb} m ms o f x) =
        read_first-ReadResult process_data floor w tb m ms o f x
    finish-ReadResult process_data floor w (not_now o) = refused again (inl refl) o
    finish-ReadResult process_data floor w (message_lost o) = refused no_memory (inr (inl refl)) o

    module _ (readers : TraceBuffer World → TraceBuffer World)
        (readers-Ordered : (floor : ℕ) (tb : TraceBuffer World)
          → Ordered k laws floor tb
          → Ordered k laws floor (readers tb)) where
      waited-ReadResult :
          (process_data : LastMessage → R × Bool) (floor : ℕ) (r : Code × TraceBuffer World)
          (go_on : TraceBuffer World → (Code × TraceBuffer World) × Bool)
          → Updated floor r
          → ((t : TraceBuffer World)
              → Ordered k laws floor t
              → ReadResult floor true (finish_wait k process_data (go_on t)))
          → ReadResult floor true (finish_wait k process_data (waited k readers r go_on))
      waited-ReadResult process_data floor _ go_on (message_first {tb} m ms o f x) rest =
          read_first-ReadResult process_data floor true tb m ms o f x
      waited-ReadResult process_data floor _ go_on (message_lost o) rest =
          refused no_memory (inr (inl refl)) o
      waited-ReadResult process_data floor _ go_on (not_now {tb} o) rest =
          elim (Bool-cases (k.fatal_signal_pending tb.world)) [
            | inl e ↦ simp e (refused restart (inr (inr refl)) o)
            | inr e ↦ elim (Bool-cases (k.mutex_lock_killable (readers tb).world)) [
              | inl f ↦ simp (e, f) (rest (readers tb) (readers-Ordered floor tb o))
              | inr f ↦ simp (e, f) (not_locked refl)
            ]
          ]

      wait_from-ReadResult :
          (process_data : LastMessage → R × Bool) (floor rounds : ℕ) (tb : TraceBuffer World)
          → Ordered k laws floor tb
          → ReadResult floor true (finish_wait k process_data (wait_from k readers rounds tb))
      unfolding wait_from
      wait_from-ReadResult process_data floor zero tb o = waiting refl
      wait_from-ReadResult process_data floor (suc rounds) tb o =
          waited-ReadResult process_data floor _ (λ t. wait_from k readers rounds t)
            (update-Updated floor true tb o)
            (λ t o'. wait_from-ReadResult process_data floor rounds t o')

      wait_if-ReadResult :
          (process_data : LastMessage → R × Bool) (floor rounds : ℕ) (w : Bool)
          (r : Code × TraceBuffer World)
          → Updated floor r
          → ReadResult floor w (wait_if k readers rounds process_data w r)
      wait_if-ReadResult process_data floor rounds true _ (message_first {tb} m ms o f x) =
          read_first-ReadResult process_data floor true tb m ms o f x
      wait_if-ReadResult process_data floor rounds false _ (message_first {tb} m ms o f x) =
          read_first-ReadResult process_data floor false tb m ms o f x
      wait_if-ReadResult process_data floor rounds true _ (not_now {tb} o) =
          wait_from-ReadResult process_data floor rounds tb o
      wait_if-ReadResult process_data floor rounds false _ (not_now o) = refused again (inl refl) o
      wait_if-ReadResult process_data floor rounds true _ (message_lost o) =
          refused no_memory (inr (inl refl)) o
      wait_if-ReadResult process_data floor rounds false _ (message_lost o) =
          refused no_memory (inr (inl refl)) o

      -- With a kernel that keeps the laws and other readers that keep what Ordered says, and on a trace
      -- buffer of which all messages before `floor` have been read: trace_buffer_read_message hands out
      -- a message that is not before `floor`, and no message before that one is still to come, or it
      -- fails with -EAGAIN, -ENOMEM or -ERESTARTSYS and all holds that held before. A call with
      -- `should_wait` may also unlock a mutex that it does not hold, or use up the rounds of waiting.
      pub trace_buffer_read_message-ReadResult :
          (process_data : LastMessage → R × Bool) (floor rounds : ℕ) (should_wait : Bool)
          (tb : TraceBuffer World)
          → Ordered k laws floor tb
          → ReadResult floor should_wait
              (trace_buffer_read_message k readers rounds process_data should_wait tb)
      unfolding trace_buffer_read_message
      trace_buffer_read_message-ReadResult process_data floor rounds should_wait tb o =
          elim (Bool-cases (k.mutex_lock_killable tb.world)) [
            | inl e ↦ simp e (
                wait_if-ReadResult process_data floor rounds should_wait _
                  (update-Updated floor false tb o))
            | inr e ↦ simp e (refused restart (inr (inr refl)) o)
          ]
