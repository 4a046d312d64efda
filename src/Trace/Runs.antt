-- ===== src/Trace/Runs.antt =====
-- A new trace buffer, and the reads that follow.
use kedr_aux.Prelude.{
  ℕ, ◌+◌, ◌^◌, ◌≤◌, ◌<◌, Bool, true, false, some, List, [], ◌∷◌, ◌≡◌, ◌≢◌, refl, sym, subst, arith,
  length,
}
use kedr_aux.Trace.{
  Kernel, LastMessage, TraceBuffer, Code, bug, unfinished, list_insert, insert_cpus,
  last_message_init, trace_buffer_alloc,
}
use kedr_aux.Trace.Kept.{
  All, Sorted, count, map-All, list_insert-Placed, Placed-Sorted, Placed-All, length-Placed,
}
use kedr_aux.Trace.Order.{Laws, InTime, Ordered, others-Bound}
use kedr_aux.Trace.Read.{Outcome, code, processed, trace_buffer_read_message}
use kedr_aux.Trace.Reads.{
  ReadResult, got, refused, not_locked, waiting, trace_buffer_read_message-ReadResult,
}

-- the last time stamp of a log, or the bottom
abbrev pub latest : ℕ → List ℕ → ℕ
latest bottom [] = bottom
latest bottom (t ∷ log) = t

-- each time stamp is not before the next one in the list, which was handed out before it
abbrev pub Descending : ℕ → List ℕ → Type 0
Descending bottom [] = Unit
Descending bottom (t ∷ log) = (latest bottom log ≤ t) × Descending bottom log

module _ (k : Kernel) (laws : Laws k) where
  open k use {World, others}

  new_message : World → ℕ → LastMessage
  new_message world cpu = last_message_init cpu (k.ring_buffer_time_stamp world cpu)

  -- the loop over the processors, for a property of each new entry
  insert_cpus-All :
      (P : LastMessage → Type 0) (message : ℕ → LastMessage) (cpus : List ℕ) (xs : List LastMessage)
      → ((cpu : ℕ) → P (message cpu))
      → Sorted xs
      → All P xs
      → Sorted (insert_cpus message cpus xs)
        × All P (insert_cpus message cpus xs)
        × (length (insert_cpus message cpus xs) ≡ length cpus + length xs)
  unfolding insert_cpus
  insert_cpus-All P message [] xs h s a = (s, a, omega arith)
  insert_cpus-All P message (cpu ∷ cpus) xs h s a =
      let p = list_insert-Placed (message cpu) xs s in
      let (s', a', n) =
        insert_cpus-All P message cpus (list_insert (message cpu) xs) h (Placed-Sorted p s)
          (Placed-All P p (h cpu) a) in
      (s', a', omega (arith, n, length-Placed p))

  count_none :
      (xs : List LastMessage) → All (λ m. m.is_exist ≡ false) xs → count (λ m. m.is_exist) xs ≡ 0
  unfolding count
  count_none [] a = refl
  count_none (x ∷ xs) (e, a) = ground (arith, e, count_none xs a)

  -- what trace_buffer_alloc makes of a new ring buffer, for at least one and fewer than 2^31 processors
  pub alloc-Ordered :
      (cpus : List ℕ) (world : World)
      → 0 < length cpus
      → length cpus < 2 ^ 31
      → ((cpu : ℕ) → laws.pending world cpu ≡ [])
      → (tb : TraceBuffer World) × (trace_buffer_alloc k true true cpus world ≡ some tb)
        × Ordered k laws 0 tb
  unfolding trace_buffer_alloc new_message
  alloc-Ordered cpus world l n e =
      let (s, a, q) =
        insert_cpus-All (InTime k laws 0 world) (new_message world) cpus [] (λ cpu. new cpu) tt
          tt in
      let (s', a', q') =
        insert_cpus-All (λ m. m.is_exist ≡ false) (new_message world) cpus [] (λ cpu. refl) tt tt in
      (
        _,
        refl,
        record {
          sorted = s;
          one_entry = omega (arith, l, q);
          entries = a;
          counted = sym (count_none _ a');
          few = omega (arith, n, q);
        },
      )
    where
      new : (cpu : ℕ) → InTime k laws 0 world (new_message world cpu)
      new cpu = (record { waiting = rw (e cpu) tt; past = omega arith }, omega arith)

  others-Ordered :
      (floor : ℕ) (tb : TraceBuffer World)
      → Ordered k laws floor tb
      → Ordered k laws floor (record tb { world = others tb.world })
  others-Ordered floor tb o = record {
    sorted = o.sorted;
    one_entry = o.one_entry;
    entries =
        map-All (InTime k laws floor tb.world) (InTime k laws floor (others tb.world))
          tb.last_messages_ordered (λ m (b, l). (others-Bound k laws tb.world m.cpu m.ts b, l))
          o.entries;
    counted = o.counted;
    few = o.few;
  }

  result-processed :
      {R : Type 0} (floor : ℕ) (w : Bool) {out : Outcome R × TraceBuffer World} (r : R)
      (m : LastMessage) (t : TraceBuffer World)
      → ReadResult k laws floor w out
      → out ≡ (processed r m, t)
      → (floor ≤ m.ts) × Ordered k laws m.ts t
  result-processed floor w r m t (got {tb} r' m' l o) e =
      let f : m' ≡ m = cc in
      let g : tb ≡ t = cc in
      (
        subst (λ x. floor ≤ x.ts) f l,
        subst (λ y. Ordered k laws m.ts y) g (subst (λ x. Ordered k laws x.ts tb) f o),
      )
  result-processed floor w r m t (refused c d o) e = absurd cc
  result-processed floor w r m t (not_locked d) e = absurd cc
  result-processed floor w r m t (waiting d) e = absurd cc

  result-code :
      {R : Type 0} (floor : ℕ) (w : Bool) {out : Outcome R × TraceBuffer World} (c : Code)
      (t : TraceBuffer World)
      → ReadResult k laws floor w out
      → out ≡ (code c, t)
      → c ≢ bug
      → c ≢ unfinished
      → Ordered k laws floor t
  result-code floor w c t (got r' m' l o) e b u = absurd cc
  result-code floor w c t (refused {tb} c' d o) e b u =
      let g : tb ≡ t = cc in subst (λ y. Ordered k laws floor y) g o
  result-code floor w c t (not_locked d) e b u = absurd (b cc)
  result-code floor w c t (waiting d) e b u = absurd (u cc)

  module _ {R : Type 0} (readers : TraceBuffer World → TraceBuffer World)
      (readers-Ordered : (floor : ℕ) (tb : TraceBuffer World)
        → Ordered k laws floor tb
        → Ordered k laws floor (readers tb))
      (process_data : LastMessage → R × Bool) where
    -- Calls of trace_buffer_read_message, with the time stamps of the messages that they hand out, the
    -- last one first, between which other code writes. A run ends where a call unlocks a mutex that it
    -- does not hold or goes on waiting.
    pub data Run (start : TraceBuffer World) : List ℕ → TraceBuffer World → Type 0 where
      begin : Run start [] start
      reads :
          {log : List ℕ} {tb tb' : TraceBuffer World} (rounds : ℕ) (should_wait : Bool) (r : R)
          (m : LastMessage)
          → Run start log tb
          → trace_buffer_read_message k readers rounds process_data should_wait tb
            ≡ (processed r m, tb')
          → Run start (m.ts ∷ log) tb'
      fails :
          {log : List ℕ} {tb tb' : TraceBuffer World} (rounds : ℕ) (should_wait : Bool) (c : Code)
          → Run start log tb
          → c ≢ bug
          → c ≢ unfinished
          → trace_buffer_read_message k readers rounds process_data should_wait tb ≡ (code c, tb')
          → Run start log tb'
      meanwhile :
          {log : List ℕ} {tb : TraceBuffer World}
          → Run start log tb
          → Run start log (record tb { world = others tb.world })

    -- With a kernel that keeps the laws and other readers that keep what Ordered says: in any run of
    -- calls of trace_buffer_read_message and writes, from a state where all messages before `floor` have
    -- been read, the time stamps of the messages handed out do not go back, the first is not before
    -- `floor`, and Ordered holds again with the last of them. A run ends where a call unlocks a mutex
    -- that it does not hold, or uses up the rounds of waiting.
    pub Run-Descending :
        {start tb : TraceBuffer World} {log : List ℕ} (floor : ℕ)
        → Ordered k laws floor start
        → Run start log tb
        → Descending floor log × Ordered k laws (latest floor log) tb
    Run-Descending floor o begin = (tt, o)
    Run-Descending floor o (reads {log} {tb} rounds w r m run e) =
        let (d, o') = Run-Descending floor o run in
        let (l, o'') =
          result-processed (latest floor log) w r m _
            (trace_buffer_read_message-ReadResult k laws readers readers-Ordered process_data
              (latest floor log) rounds w tb o')
            e in
        ((l, d), o'')
    Run-Descending floor o (fails {log} {tb} rounds w c run b u e) =
        let (d, o') = Run-Descending floor o run in
        (
          d,
          result-code (latest floor log) w c _
              (trace_buffer_read_message-ReadResult k laws readers readers-Ordered process_data
                (latest floor log) rounds w tb o')
              e b u,
        )
    Run-Descending floor o (meanwhile {log} {tb} run) =
        let (d, o') = Run-Descending floor o run in (d, others-Ordered (latest floor log) tb o')
