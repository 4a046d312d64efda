-- ===== src/Trace/Prompt.antt =====
-- A message that is older than the time stamps of all sub-buffers.
use kedr_aux.Prelude.{
  ℕ, ◌+◌, ◌≤◌, ◌<◌, Bool, true, false, ◌&&◌, none, some, List, [], ◌∷◌, ◌==◌, ◌≡◌, ◌⊎◌, refl, ap,
  subst, arith, ltb, if◌then◌else◌, inl, inr,
}
use kedr_aux.Trace.{
  Kernel, Event, LastMessage, TraceBuffer, Code, success, no_memory, cpumask_test_cpu,
  trace_buffer_update_internal,
}
use kedr_aux.Trace.Kept.{
  All, Sorted, Placed, count, map-All, list_insert-Placed, Placed-All, Placed-count,
  count-le-length,
}
use kedr_aux.Trace.Loop.{
  fetch, emptied, behind_empty, filled, behind_event, Updates, Ends, readable, blocked, lost,
  trace_buffer_update_internal-Ends,
}
use kedr_aux.Trace.Order.{Laws}

-- a message that was written before `t`
abbrev pub older : ℕ → LastMessage → Bool
older t m = m.is_exist && ltb m.ts t

older_none : (t : ℕ) (xs : List LastMessage) → All (λ m. t ≤ m.ts) xs → count (older t) xs ≡ 0
unfolding count
older_none t [] a = refl
older_none t (x ∷ xs) (l, a) = ground (arith, l, older_none t xs a)

-- if no two entries are for one processor, no other entry is for that of the first one
other_cpus :
    (cpu : ℕ) (xs : List LastMessage)
    → count (λ x. x.cpu == cpu) xs ≤ 0
    → All (λ x. (x.cpu == cpu) ≡ false) xs
unfolding count
other_cpus cpu [] h = tt
other_cpus cpu (x ∷ xs) h = (ground (arith, h), other_cpus cpu xs (ground (arith, h)))

module _ (k : Kernel) (laws : Laws k) (t : ℕ) where
  open k use {World, others, ring_buffer_time_stamp}

  -- an updated sub-buffer that is empty has a time stamp of `t` or later
  abbrev Late : List ℕ → LastMessage → Type 0
  Late mask m = cpumask_test_cpu m.cpu mask ≡ true → m.is_exist ≡ false → t ≤ m.ts

  abbrev Prompt : List ℕ → TraceBuffer World → Type 0
  Prompt mask tb =
      All (Late mask) tb.last_messages_ordered
      × ((cpu : ℕ) → count (λ x. x.cpu == cpu) tb.last_messages_ordered ≤ 1)
      × ((cpu : ℕ) → t ≤ ring_buffer_time_stamp tb.world cpu)
      × (0 < count (older t) tb.last_messages_ordered)

  fetch_stamp :
      (tb : TraceBuffer World) (cpu c : ℕ)
      → t ≤ ring_buffer_time_stamp tb.world c
      → t ≤ ring_buffer_time_stamp (fetch k tb cpu).1 c
  fetch_stamp tb cpu c h = omega (
    arith,
    h,
    laws.others_stamp tb.world c,
    laws.others_stamp (others tb.world) c,
    laws.consume_stamp (others (others tb.world)) cpu c,
  )

  -- the other entries, behind a round for the first one
  others-Late :
      (mask : List ℕ) (m : LastMessage) (ms : List LastMessage)
      → count (λ x. x.cpu == m.cpu) (m ∷ ms) ≤ 1
      → All (Late mask) ms
      → All (Late (m.cpu ∷ mask)) ms
  unfolding count cpumask_test_cpu
  others-Late mask m ms c a = each ms (other_cpus m.cpu ms (ground (arith, c))) a
    where
      each :
          (xs : List LastMessage)
          → All (λ x. (x.cpu == m.cpu) ≡ false) xs
          → All (Late mask) xs
          → All (Late (m.cpu ∷ mask)) xs
      each [] d a = tt
      each (x ∷ xs) (d, ds) (a, as') = (λ e f. a (ground (arith, d, e)) f, each xs ds as')

  -- a round that puts an entry for the same processor in the place of the first one, which is empty
  round-Prompt :
      (mask : List ℕ) (tb : TraceBuffer World) (m m' : LastMessage) (ms ys : List LastMessage)
      → Prompt mask tb
      → Updates k mask tb m ms
      → Placed m' ms ys
      → m'.cpu ≡ m.cpu
      → (m'.is_exist ≡ false → t ≤ m'.ts)
      → All (Late (m.cpu ∷ mask)) ys
        × ((cpu : ℕ) → count (λ x. x.cpu == cpu) ys ≤ 1)
        × (0 < count (older t) ys)
  unfolding count
  round-Prompt mask tb m m' ms ys (a, c, s, o) u p e l = (
    Placed-All (Late (m.cpu ∷ mask)) p (λ f g. l g)
        (others-Late mask m ms (subst (λ xs. count (λ x. x.cpu == m.cpu) xs ≤ 1) u.first (c m.cpu))
          (subst (All (Late mask)) u.first a).1),
    (λ cpu. omega (
      arith,
      Placed-count (λ x. x.cpu == cpu) p,
      same cpu,
      ap (count (λ x. x.cpu == cpu)) u.first,
      c cpu,
    )),
    omega (arith, Placed-count (older t) p, not_fewer u.empty, ap (count (older t)) u.first, o),
  )
    where
      same : (cpu : ℕ) → count (λ x. x.cpu == cpu) (m' ∷ ms) ≡ count (λ x. x.cpu == cpu) (m ∷ ms)
      same cpu = ap (λ d. (if d == cpu then 1 else 0) + count (λ x. x.cpu == cpu) ms) e

      not_fewer : m.is_exist ≡ false → count (older t) (m ∷ ms) ≤ count (older t) (m' ∷ ms)
      not_fewer z = ground (arith, z)

  keep_empty :
      (mask : List ℕ) (tb : TraceBuffer World) (m : LastMessage) (ms : List LastMessage)
      → Prompt mask tb
      → Updates k mask tb m ms
      → (fetch k tb m.cpu).0 ≡ none
      → Prompt (m.cpu ∷ mask) (behind_empty k m ms tb)
  keep_empty mask tb m ms i u e =
      let late : t ≤ (emptied k m tb).ts =
        omega (arith, i.2 m.cpu, laws.others_stamp tb.world m.cpu) in
      let (a, c, o) =
        round-Prompt mask tb m (emptied k m tb) ms _ i u
          (list_insert-Placed (emptied k m tb) ms u.sorted) refl (λ f. late) in
      (a, c, (λ cpu. fetch_stamp tb m.cpu cpu (i.2 cpu)), o)

  keep_event :
      (mask : List ℕ) (tb : TraceBuffer World) (m : LastMessage) (ms : List LastMessage) (e : Event)
      → Prompt mask tb
      → Updates k mask tb m ms
      → (fetch k tb m.cpu).0 ≡ some e
      → Prompt (m.cpu ∷ mask) (behind_event k m ms e tb)
  keep_event mask tb m ms e i u q =
      let (a, c, o) =
        round-Prompt mask tb m (filled k m e) ms _ i u
          (list_insert-Placed (filled k m e) ms u.sorted) refl (λ f. absurd cc) in
      (a, c, (λ cpu. fetch_stamp tb m.cpu cpu (i.2 cpu)), o)

  none_marked : (xs : List LastMessage) → All (Late []) xs
  unfolding cpumask_test_cpu
  none_marked [] = tt
  none_marked (x ∷ xs) = (λ e f. absurd cc, none_marked xs)

  not_again :
      (waits : Bool) {r : Code × TraceBuffer World}
      → Ends k Prompt waits r
      → (r.0 ≡ success) ⊎ (r.0 ≡ no_memory)
  not_again waits (readable m ms i f s x) = inl refl
  not_again waits (lost mask m ms e i u q z) = inr refl
  not_again waits (blocked {tb} mask m ms (a, c, n, o) f s x y) =
      let late = (subst (All (Late mask)) f a).0 y x in
      let (l, s') = subst Sorted f s in
      absurd (
        omega (
          arith,
          o,
          ap (count (older t)) f,
          older_none t (m ∷ ms) (
            late,
            map-All (λ z. m.ts ≤ z.ts) (λ z. t ≤ z.ts) ms (λ z g. omega (arith, g, late)) l,
          ),
        ))

  -- With a kernel that keeps the laws: if the time stamps of all sub-buffers have come to `t`, a message
  -- before `t` is held, and there is at most one entry for each processor, in the order of their time
  -- stamps, then
  -- trace_buffer_update_internal does not return -EAGAIN: a message can be read without waiting,
  -- unless one is lost for want of memory.
  pub update_prompt :
      (waits : Bool) (tb : TraceBuffer World)
      → Sorted tb.last_messages_ordered
      → ((cpu : ℕ) → count (λ x. x.cpu == cpu) tb.last_messages_ordered ≤ 1)
      → ((cpu : ℕ) → t ≤ ring_buffer_time_stamp tb.world cpu)
      → 0 < count (older t) tb.last_messages_ordered
      → ((trace_buffer_update_internal k waits tb).0 ≡ success)
        ⊎ ((trace_buffer_update_internal k waits tb).0 ≡ no_memory)
  update_prompt waits tb s c n o = not_again waits (
      trace_buffer_update_internal-Ends k Prompt waits keep_empty keep_event tb
        (none_marked tb.last_messages_ordered, c, n, o) s
        (omega (arith, o, count-le-length (older t) tb.last_messages_ordered)))
