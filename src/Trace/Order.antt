-- ===== src/Trace/Order.antt =====
-- The order of the messages of a reader, and what is relied on of the kernel.
use kedr_aux.Prelude.{
  ℕ, ◌+◌, ◌^◌, ◌≤◌, ◌<◌, Bool, true, false, Option, none, some, List, [], ◌∷◌, ◌==◌, ◌≡◌, refl, sym,
  ap, ◌∙◌, subst, arith, length,
}
use kedr_aux.Trace.{Kernel, Event, LastMessage, TraceBuffer, trace_buffer_update_internal}
use kedr_aux.Trace.Kept.{
  All, Sorted, count, map-All, list_insert-Placed, Placed-All, Placed-count, length-Placed,
}
use kedr_aux.Trace.Loop.{
  fetch, emptied, behind_empty, filled, behind_event, Updates, Ends,
  trace_buffer_update_internal-Ends,
}

abbrev pub NotBefore : ℕ → List Event → Type 0
NotBefore t [] = Unit
NotBefore t (e ∷ es) = (t ≤ e.ts) × NotBefore t es

NotBefore-trans : (s t : ℕ) (es : List Event) → s ≤ t → NotBefore t es → NotBefore s es
NotBefore-trans s t [] h n = tt
NotBefore-trans s t (e ∷ es) h (l, n) = (omega (arith, h, l), NotBefore-trans s t es h n)

-- What is relied on of the kernel: `pending` are the events that wait in a sub-buffer. An event that
-- is written later is not before the time stamp that the sub-buffer has; time stamps of a sub-buffer do
-- not go back; ring_buffer_consume takes the first event, if there is one, and leaves the other
-- sub-buffers alone; the events wait in the order of their time stamps.
pub record Laws (k : Kernel) : Type 0 where
  pub pending : k.World → ℕ → List Event
  pub others_pending :
      (w : k.World) (cpu t : ℕ)
      → NotBefore t (pending w cpu)
      → t ≤ k.ring_buffer_time_stamp w cpu
      → NotBefore t (pending (k.others w) cpu)
  pub others_stamp :
      (w : k.World) (cpu : ℕ)
      → k.ring_buffer_time_stamp w cpu ≤ k.ring_buffer_time_stamp (k.others w) cpu
  pub consume_none :
      (w : k.World) (cpu : ℕ)
      → (k.ring_buffer_consume w cpu).0 ≡ none
      → pending (k.ring_buffer_consume w cpu).1 cpu ≡ []
  pub consume_some :
      (w : k.World) (cpu : ℕ) (e : Event)
      → (k.ring_buffer_consume w cpu).0 ≡ some e
      → pending w cpu ≡ e ∷ pending (k.ring_buffer_consume w cpu).1 cpu
  pub consume_others :
      (w : k.World) (cpu c : ℕ)
      → (cpu == c) ≡ false
      → pending (k.ring_buffer_consume w cpu).1 c ≡ pending w c
  pub consume_stamp :
      (w : k.World) (cpu c : ℕ)
      → k.ring_buffer_time_stamp (k.ring_buffer_consume w cpu).1 c ≡ k.ring_buffer_time_stamp w c
  pub in_order :
      (w : k.World) (cpu : ℕ) (e : Event) (es : List Event)
      → pending w cpu ≡ e ∷ es
      → NotBefore e.ts es × (e.ts ≤ k.ring_buffer_time_stamp w cpu)

module _ (k : Kernel) (laws : Laws k) where
  open k use {World, others, ring_buffer_time_stamp, ring_buffer_consume}

  -- no message of the sub-buffer that is still to come is before `t`
  pub record Bound (w : World) (cpu t : ℕ) : Type 0 where
    pub waiting : NotBefore t (laws.pending w cpu)
    pub past : t ≤ ring_buffer_time_stamp w cpu

  pub others-Bound : (w : World) (cpu t : ℕ) → Bound w cpu t → Bound (others w) cpu t
  others-Bound w cpu t b = record {
    waiting = laws.others_pending w cpu t b.waiting b.past;
    past = omega (arith, b.past, laws.others_stamp w cpu);
  }

  consume-Bound : (w : World) (cpu c t : ℕ) → Bound w c t → Bound (ring_buffer_consume w cpu).1 c t
  consume-Bound w cpu c t b = record {
    waiting = still (cpu == c) refl;
    past = omega (arith, b.past, laws.consume_stamp w cpu c);
  }
    where
      same : (cpu == c) ≡ true → cpu ≡ c
      same e = ground (arith, e)

      taken :
          (o : Option Event)
          → (ring_buffer_consume w cpu).0 ≡ o
          → NotBefore t (laws.pending w cpu)
          → NotBefore t (laws.pending (ring_buffer_consume w cpu).1 cpu)
      taken none e n = rw (laws.consume_none w cpu e) tt
      taken (some ev) e n = (subst (NotBefore t) (laws.consume_some w cpu ev e) n).1

      still :
          (x : Bool) → (cpu == c) ≡ x → NotBefore t (laws.pending (ring_buffer_consume w cpu).1 c)
      still false e = rw (laws.consume_others w cpu c e) b.waiting
      still true e =
          let q = same e in
          subst (λ d. NotBefore t (laws.pending (ring_buffer_consume w cpu).1 d)) q
            (taken (ring_buffer_consume w cpu).0 refl
              (subst (λ d. NotBefore t (laws.pending w d)) (sym q) b.waiting))

  -- an entry, of a state in which all messages before `floor` have been read
  abbrev pub InTime : ℕ → World → LastMessage → Type 0
  InTime floor w m = Bound w m.cpu m.ts × (floor ≤ m.ts)

  abbrev pub Entries : ℕ → List ℕ → TraceBuffer World → Type 0
  Entries floor mask tb =
      All (InTime floor tb.world) tb.last_messages_ordered
      × (tb.non_empty_buffers ≡ count (λ m. m.is_exist) tb.last_messages_ordered)
      × (length tb.last_messages_ordered < 2 ^ 31)

  fetch-Bound :
      (tb : TraceBuffer World) (cpu c t : ℕ) → Bound tb.world c t → Bound (fetch k tb cpu).1 c t
  fetch-Bound tb cpu c t b =
      consume-Bound _ cpu c t (others-Bound _ c t (others-Bound tb.world c t b))

  pub rest-InTime :
      (floor : ℕ) (mask : List ℕ) (tb : TraceBuffer World) (m : LastMessage) (ms : List LastMessage)
      → Entries floor mask tb
      → tb.last_messages_ordered ≡ m ∷ ms
      → InTime floor tb.world m × All (InTime floor (fetch k tb m.cpu).1) ms
  rest-InTime floor mask tb m ms (a, c, n) f =
      let (h, t) = subst (All (InTime floor tb.world)) f a in
      (
        h,
        map-All (InTime floor tb.world) (InTime floor (fetch k tb m.cpu).1) ms
            (λ x (b, l). (fetch-Bound tb m.cpu x.cpu x.ts b, l)) t,
      )

  emptied-InTime :
      (floor : ℕ) (tb : TraceBuffer World) (m : LastMessage)
      → InTime floor tb.world m
      → (fetch k tb m.cpu).0 ≡ none
      → InTime floor (fetch k tb m.cpu).1 (emptied k m tb)
  emptied-InTime floor tb m (b, l) e = (
    record {
      waiting = rw (laws.consume_none _ m.cpu e) tt;
      past = omega (
        arith,
        laws.others_stamp (others tb.world) m.cpu,
        laws.consume_stamp (others (others tb.world)) m.cpu m.cpu,
      );
    },
    omega (arith, l, b.past, laws.others_stamp tb.world m.cpu),
  )

  pub event-InTime :
      (floor : ℕ) (tb : TraceBuffer World) (m m' : LastMessage) (e : Event)
      → InTime floor tb.world m
      → (fetch k tb m.cpu).0 ≡ some e
      → m'.cpu ≡ m.cpu
      → m'.ts ≡ e.ts
      → InTime floor (fetch k tb m.cpu).1 m'
  event-InTime floor tb m m' e (b, l) q c t =
      let w = others (others tb.world) in
      let p = laws.consume_some w m.cpu e q in
      let (n, past) = laws.in_order w m.cpu e _ p in
      let before =
        (subst (NotBefore m.ts) p
          (others-Bound _ m.cpu m.ts (others-Bound tb.world m.cpu m.ts b)).waiting).0 in
      (
        rw (c, t)
            (record { waiting = n; past = omega (arith, past, laws.consume_stamp w m.cpu m.cpu) }),
        omega (arith, l, before, t),
      )

  keep_empty :
      (floor : ℕ) (mask : List ℕ) (tb : TraceBuffer World) (m : LastMessage) (ms : List LastMessage)
      → Entries floor mask tb
      → Updates k mask tb m ms
      → (fetch k tb m.cpu).0 ≡ none
      → Entries floor (m.cpu ∷ mask) (behind_empty k m ms tb)
  unfolding count
  keep_empty floor mask tb m ms i u e =
      let (h, t) = rest-InTime floor mask tb m ms i u.first in
      let p = list_insert-Placed (emptied k m tb) ms u.sorted in
      (
        Placed-All (InTime floor (fetch k tb m.cpu).1) p (emptied-InTime floor tb m h e) t,
        i.1 ∙ ap (count (λ x. x.is_exist)) u.first ∙ sym (Placed-count (λ x. x.is_exist) p),
        omega (arith, i.2, ap length u.first, length-Placed p),
      )

  keep_event :
      (floor : ℕ) (mask : List ℕ) (tb : TraceBuffer World) (m : LastMessage) (ms : List LastMessage)
      (e : Event)
      → Entries floor mask tb
      → Updates k mask tb m ms
      → (fetch k tb m.cpu).0 ≡ some e
      → Entries floor (m.cpu ∷ mask) (behind_event k m ms e tb)
  unfolding count
  keep_event floor mask tb m ms e i u q =
      let (h, t) = rest-InTime floor mask tb m ms i u.first in
      let p = list_insert-Placed (filled k m e) ms u.sorted in
      (
        Placed-All (InTime floor (fetch k tb m.cpu).1) p
            (event-InTime floor tb m (filled k m e) e h q refl refl) t,
        ap (λ n. n + 1) (i.1 ∙ ap (count (λ x. x.is_exist)) u.first)
            ∙ one_more
            ∙ sym (Placed-count (λ x. x.is_exist) p),
        omega (arith, i.2, ap length u.first, length-Placed p),
      )
    where
      one_more : count (λ x. x.is_exist) (m ∷ ms) + 1 ≡ count (λ x. x.is_exist) (filled k m e ∷ ms)
      one_more = let z = u.empty in ground (arith, z)

  -- what holds between the calls of a reader that has read all messages before `floor`
  pub record Ordered (floor : ℕ) (tb : TraceBuffer World) : Type 0 where
    pub sorted : Sorted tb.last_messages_ordered
    pub one_entry : 0 < length tb.last_messages_ordered
    pub entries : All (InTime floor tb.world) tb.last_messages_ordered
    pub counted : tb.non_empty_buffers ≡ count (λ m. m.is_exist) tb.last_messages_ordered
    pub few : length tb.last_messages_ordered < 2 ^ 31

  pub update-Ends :
      (floor : ℕ) (waits : Bool) (tb : TraceBuffer World)
      → Ordered floor tb
      → Ends k (Entries floor) waits (trace_buffer_update_internal k waits tb)
  update-Ends floor waits tb o =
      trace_buffer_update_internal-Ends k (Entries floor) waits (keep_empty floor)
        (keep_event floor) tb (o.entries, o.counted, o.few) o.sorted o.one_entry
