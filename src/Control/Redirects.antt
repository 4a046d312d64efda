-- ===== src/Control/Redirects.antt =====
-- What do_process_area makes of the calls that it visits.
use kedr_aux.Prelude.{
  ℕ, zero, suc, ◌+◌, ◌-◌, ◌≤◌, ◌<◌, Bool, true, false, Option, none, some, List, ◌≡◌, ◌≢◌, ◌⊎◌,
  refl, sym, ap, ◌∙◌, subst, arith, ◌==◌, ltb, leb, length, get_elem?, if◌then◌else◌, Bool-cases,
  inl, inr,
}
use kedr_aux.Control.{
  Memory, Insn, bug, done, next_pos, call_target, processed, process_from, do_process_area,
}
use kedr_aux.Control.Offsets.{Near}
use kedr_aux.Control.Targets.{
  NonNull, Processed, no_insn, no_call, not_of_interest, redirected, do_process_insn-Processed,
}
use kedr_aux.Control.Area.{CallsFit, next_pos-le}
use kedr_aux.Control.Agree.{Agree, next_pos-Agree, call_target-Agree}
use kedr_aux.Control.Skips.{next_pos-Next, Next-next_pos}
use kedr_aux.Control.Sites.{
  Local, Visited, here, further, Visited-le, InOffset, Redirected, not_decoded, not_call, old_call,
  new_call, Redirected-Above,
}

then_part : {A : Type 0} {b : Bool} (x y : A) {z : A} → b ≡ true → (if b then x else y) ≡ z → x ≡ z
then_part {b = true} x y e h = h
then_part {b = false} x y e h = cc

else_part : {A : Type 0} {b : Bool} (x y : A) {z : A} → b ≡ false → (if b then x else y) ≡ z → y ≡ z
else_part {b = true} x y e h = cc
else_part {b = false} x y e h = h

not_done : {m : Memory} {A : Type 0} → bug ≡ done m → A
not_done h = cc

done_lem : (m n : Memory) → done m ≡ done n → m ≡ n
done_lem m n h = cc

module _ (decode : Memory → ℕ → Insn) (longest : ℕ) (fit : CallsFit decode longest)
    (local : Local decode) (froms tos : List ℕ) (nfuncs : ℕ) (enough_froms : nfuncs ≤ length froms)
    (enough_tos : nfuncs ≤ length tos) (non_null : NonNull tos) (kbeg kend : ℕ)
    (near : (a l i t : ℕ)
      → kbeg ≤ a
      → a < kend
      → l ≤ longest
      → get_elem? tos i ≡ some t
      → Near a l t) where
  -- what one instruction becomes, when nothing before its end is written any more
  record Settled (mem fin : Memory) (pos len : ℕ) : Type 0 where
    site : Redirected decode froms tos nfuncs mem fin pos (decode mem pos)
    same_insn : decode fin pos ≡ decode mem pos
    length_is : (decode mem pos).insn_length ≡ len

  insn-Settled :
      (mem m fin : Memory) (pos len : ℕ)
      → kbeg ≤ pos
      → pos + 4 < kend
      → len ≢ 0
      → Processed mem pos (decode mem pos) nfuncs froms tos (some (len, m))
      → Agree (pos + len) m fin
      → Settled mem fin pos len
  insn-Settled mem m fin pos len h k l (no_insn e) a = absurd (l refl)
  insn-Settled mem m fin pos len h k l (no_call e f) a =
      let d : decode fin pos ≡ decode mem pos = local.same_insn mem fin pos e (λ x b c. a x c) in
      record { site = not_call e d f; same_insn = d; length_is = refl }
  insn-Settled mem m fin pos len h k l (not_of_interest e o b f) a =
      let d : decode fin pos ≡ decode mem pos = local.same_insn mem fin pos e (λ x b c. a x c) in
      record {
        site = old_call e d f (
            call_target-Agree mem fin pos (decode mem pos) _
              (omega (arith, fit.offset_inside mem pos o b)) a);
        same_insn = d;
        length_is = refl;
      }
  insn-Settled mem m fin pos len h k l (redirected m' i t e o b n f g u near' frame) a =
      let d : decode fin pos ≡ decode mem pos =
        local.same_call mem fin pos e o b (λ x c d s. a x d ∙ frame x s) in
      let c : call_target fin pos (decode mem pos) ≡ t =
        call_target-Agree m fin pos (decode mem pos) _
          (omega (arith, fit.offset_inside mem pos o b)) a
        ∙ near' (near pos _ i t h (omega (arith, k)) (fit.at_most mem pos o) u) in
      record { site = new_call i e d n f g (u ∙ ap some (sym c)); same_insn = d; length_is = refl }

  insn-Agree :
      (mem m : Memory) (pos len : ℕ)
      → Processed mem pos (decode mem pos) nfuncs froms tos (some (len, m))
      → Agree (pos + 1) mem m
  insn-Agree mem m pos len (no_insn e) x h = refl
  insn-Agree mem m pos len (no_call e f) x h = refl
  insn-Agree mem m pos len (not_of_interest e o b f) x h = refl
  insn-Agree mem m pos len (redirected m' i t e o b n f g u near' frame) x h =
      frame x (inl (omega (arith, h, local.opcode_first mem pos o b)))

  insn-Above :
      (mem m : Memory) (pos len : ℕ)
      → Processed mem pos (decode mem pos) nfuncs froms tos (some (len, m))
      → (x : ℕ) → pos + len ≤ x
      → m x ≡ mem x
  insn-Above mem m pos len (no_insn e) x h = refl
  insn-Above mem m pos len (no_call e f) x h = refl
  insn-Above mem m pos len (not_of_interest e o b f) x h = refl
  insn-Above mem m pos len (redirected m' i t e o b n f g u near' frame) x h =
      frame x (inr (omega (arith, h, fit.offset_inside mem pos o b)))

  undecoded :
      (mem m : Memory) (pos len : ℕ)
      → Processed mem pos (decode mem pos) nfuncs froms tos (some (len, m))
      → len ≡ 0
      → (m ≡ mem) × ((decode mem pos).insn_length ≡ 0)
  undecoded mem m pos len (no_insn e) z = (refl, e)
  undecoded mem m pos len (no_call e f) z = absurd (e z)
  undecoded mem m pos len (not_of_interest e o b f) z = absurd (e z)
  undecoded mem m pos len (redirected m' i t e o b n f g u near' frame) z = absurd (e z)

  insn-InOffset :
      (mem m fin : Memory) (pos len : ℕ)
      → decode fin pos ≡ decode mem pos
      → Processed mem pos (decode mem pos) nfuncs froms tos (some (len, m))
      → (x : ℕ) → (m x ≡ mem x) ⊎ InOffset decode kend fin pos x
  insn-InOffset mem m fin pos len d (no_insn e) x = inl refl
  insn-InOffset mem m fin pos len d (no_call e f) x = inl refl
  insn-InOffset mem m fin pos len d (not_of_interest e o b f) x = inl refl
  insn-InOffset mem m fin pos len d (redirected m' i t e o b n f g u near' frame) x =
      elim (Bool-cases (ltb x (pos + (decode mem pos).offset_immediate))) [
        | inl c ↦ inl (frame x (inl (ground (arith, c))))
        | inr c ↦ elim (Bool-cases (ltb x (pos + (decode mem pos).offset_immediate + 4))) [
          | inr c' ↦ inl (frame x (inr (ground (arith, c'))))
          | inl c' ↦ inr (record {
            site = pos;
            visited = here;
            is_call = ap (λ i. i.opcode) d ∙ o;
            has_offset = ap (λ i. i.immediate_nbytes) d ∙ b;
            from_offset = ground (arith, ap (λ i. i.offset_immediate) d, c);
            below_end = ground (arith, ap (λ i. i.offset_immediate) d, c');
          })
        ]
      ]

  -- what the loop makes of the area from `pos` on
  record Rewritten (mem fin : Memory) (pos : ℕ) : Type 0 where
    before : Agree (pos + 1) mem fin
    sites :
        (s : ℕ)
        → Visited decode kend fin pos s
        → s + 4 < kend
        → Redirected decode froms tos nfuncs mem fin s (decode mem s)
    changes : (x : ℕ) → (fin x ≡ mem x) ⊎ InOffset decode kend fin pos x

  -- the loop ends at `pos`
  ended-Rewritten :
      (mem fin : Memory) (pos : ℕ)
      → mem ≡ fin
      → ((s : ℕ)
          → Visited decode kend fin pos s
          → s + 4 < kend
          → Redirected decode froms tos nfuncs mem fin s (decode mem s))
      → Rewritten mem fin pos
  ended-Rewritten mem fin pos e f = record {
    before = λ x l. ap (λ z. z x) (sym e);
    sites = f;
    changes = λ x. inl (ap (λ z. z x) (sym e));
  }

  -- a round that goes on behind an instruction of `len` bytes
  next-Rewritten :
      (mem m fin : Memory) (pos len : ℕ)
      → kbeg ≤ pos
      → pos + 4 < kend
      → len ≢ 0
      → pos + len ≤ kend
      → Processed mem pos (decode mem pos) nfuncs froms tos (some (len, m))
      → Rewritten m fin (next_pos kend m pos len)
      → Rewritten mem fin pos
  next-Rewritten mem m fin pos len h k l e p r =
      let b : Agree (pos + len) m fin =
        λ x c. r.before x (omega (arith, c, next_pos-le kend m pos len)) in
      let t = insn-Settled mem m fin pos len h k l p b in
      let n : next_pos kend fin pos (decode fin pos).insn_length ≡ next_pos kend m pos len =
        ap (λ z. next_pos kend fin pos z) (ap (λ i. i.insn_length) t.same_insn ∙ t.length_is)
        ∙ next_pos-Agree kend m fin pos len r.before in
      let long : (decode fin pos).insn_length ≡ len =
        ap (λ i. i.insn_length) t.same_insn ∙ t.length_is in
      record {
        before = λ x c. b x (omega (arith, c, l)) ∙ insn-Agree mem m pos len p x c;
        sites = λ s v. visit s v t.site n;
        changes = λ x. elim (r.changes x) [
          | inl c ↦ elim (insn-InOffset mem m fin pos len t.same_insn p x) [
            | inl d ↦ inl (c ∙ d)
            | inr o ↦ inr o
          ]
          | inr o ↦ inr (record {
            site = o.site;
            visited =
                further k (λ z. l (sym long ∙ z)) (omega (arith, e, long))
                  (next_pos-Next kend fin pos (decode fin pos).insn_length (omega (arith, e, long)))
                  (subst (λ z. Visited decode kend fin z o.site) (sym n) o.visited);
            is_call = o.is_call;
            has_offset = o.has_offset;
            from_offset = o.from_offset;
            below_end = o.below_end;
          })
        ];
      }
    where
      visit :
          (s : ℕ)
          → Visited decode kend fin pos s
          → Redirected decode froms tos nfuncs mem fin pos (decode mem pos)
          → next_pos kend fin pos (decode fin pos).insn_length ≡ next_pos kend m pos len
          → s + 4 < kend
          → Redirected decode froms tos nfuncs mem fin s (decode mem s)
      visit s here t n c = t
      visit s (further i j w x v) t n c =
          let v' =
            subst (λ z. Visited decode kend fin z s)
              (Next-next_pos kend fin pos (decode fin pos).insn_length _ x ∙ n) v in
          Redirected-Above decode froms tos nfuncs mem m fin s local
            (λ x y.
              insn-Above mem m pos len p x
                (omega (arith, y, Visited-le decode kend v', next_pos-le kend m pos len)))
            (r.sites s v' c)

  -- a round behind which the loop ends, since no instruction fits
  last-Rewritten :
      (mem m fin : Memory) (pos len : ℕ)
      → kbeg ≤ pos
      → pos + 4 < kend
      → len ≢ 0
      → kend < pos + len
      → Processed mem pos (decode mem pos) nfuncs froms tos (some (len, m))
      → m ≡ fin
      → Rewritten mem fin pos
  last-Rewritten mem m fin pos len h k l e p w =
      let b : (x : ℕ) → fin x ≡ m x = λ x. ap (λ z. z x) (sym w) in
      let t = insn-Settled mem m fin pos len h k l p (λ x c. b x) in
      let long : (decode fin pos).insn_length ≡ len =
        ap (λ i. i.insn_length) t.same_insn ∙ t.length_is in
      record {
        before = λ x c. b x ∙ insn-Agree mem m pos len p x c;
        sites = λ s v. visit s v t.site long;
        changes = λ x. elim (insn-InOffset mem m fin pos len t.same_insn p x) [
          | inl d ↦ inl (b x ∙ d)
          | inr o ↦ inr o
        ];
      }
    where
      visit :
          (s : ℕ)
          → Visited decode kend fin pos s
          → Redirected decode froms tos nfuncs mem fin pos (decode mem pos)
          → (decode fin pos).insn_length ≡ len
          → s + 4 < kend
          → Redirected decode froms tos nfuncs mem fin s (decode mem s)
      visit s here t n c = t
      visit s (further i j w x v) t n c = absurd (omega (arith, n, w, e))

  -- an instruction that is not decoded
  undecoded-Rewritten :
      (mem m fin : Memory) (pos : ℕ)
      → Processed mem pos (decode mem pos) nfuncs froms tos (some (0, m))
      → m ≡ fin
      → Rewritten mem fin pos
  undecoded-Rewritten mem m fin pos p w =
      let (e, z) = undecoded mem m pos 0 p refl in
      ended-Rewritten mem fin pos (sym e ∙ w) (λ s v. visit s v z (sym e ∙ w))
    where
      visit :
          (s : ℕ)
          → Visited decode kend fin pos s
          → (decode mem pos).insn_length ≡ 0
          → mem ≡ fin
          → s + 4 < kend
          → Redirected decode froms tos nfuncs mem fin s (decode mem s)
      visit s here z q c = not_decoded z
      visit s (further i j w' x' v) z q c =
          absurd (j (ap (λ x. (decode x pos).insn_length) (sym q) ∙ z))

  round-Rewritten :
      (rounds : ℕ) (mem : Memory) (pos : ℕ) (fin : Memory) (r : Option (ℕ × Memory))
      → kbeg ≤ pos
      → pos + 4 < kend
      → ((m : Memory) (p : ℕ)
          → kbeg ≤ p
          → process_from decode (some froms) (some tos) nfuncs rounds kend m p ≡ done fin
          → Rewritten m fin p)
      → Processed mem pos (decode mem pos) nfuncs froms tos r
      → processed decode
          (some froms)
          (some tos)
          nfuncs
          kend
          pos
          (λ m p. process_from decode (some froms) (some tos) nfuncs rounds kend m p)
          r
        ≡ done fin
      → Rewritten mem fin pos
  round-Rewritten rounds mem pos fin none h e g p s = not_done s
  round-Rewritten rounds mem pos fin (some (zero, m)) h e g p s =
      undecoded-Rewritten mem m fin pos p (done_lem m fin s)
  round-Rewritten rounds mem pos fin (some (suc len, m)) h e g p s =
      elim (Bool-cases (leb (pos + suc len) kend)) [
        | inl f ↦
            next-Rewritten mem m fin pos (suc len) h e (λ z. omega (arith, z)) (ground (arith, f)) p
              (g m (next_pos kend m pos (suc len))
                (omega (arith, h, next_pos-le kend m pos (suc len))) (then_part _ _ f s))
        | inr f ↦
            last-Rewritten mem m fin pos (suc len) h e (λ z. omega (arith, z)) (ground (arith, f)) p
              (done_lem m fin (else_part _ _ f s))
      ]

  process_from-Rewritten :
      (rounds : ℕ) (mem : Memory) (pos : ℕ) (fin : Memory)
      → kbeg ≤ pos
      → process_from decode (some froms) (some tos) nfuncs rounds kend mem pos ≡ done fin
      → Rewritten mem fin pos
  unfolding process_from
  process_from-Rewritten zero mem pos fin h q = cc
  process_from-Rewritten (suc rounds) mem pos fin h q = elim (Bool-cases (ltb (pos + 4) kend)) [
    | inl e ↦
        round-Rewritten rounds mem pos fin _ h (ground (arith, e))
          (λ m p k t. process_from-Rewritten rounds m p fin k t)
          (do_process_insn-Processed decode mem pos nfuncs froms tos enough_froms enough_tos
            non_null)
          (then_part _ _ e q)
    | inr e ↦
        ended-Rewritten mem fin pos (done_lem mem fin (else_part _ _ e q))
          (λ s v c. absurd (ground (arith, e, c, Visited-le decode kend v)))
  ]

  -- For arrays of at least `nfuncs` functions without a NULL among the replacements, replacements that
  -- are within 2 GB of the area, and a decoder that depends on nothing but the bytes of an instruction
  -- and for a call not on its offset, when do_process_area ends: each instruction that is visited in
  -- the code that it leaves and begins at least 5 bytes before `kend` is what it was, unless it could
  -- not be decoded, and of the calls among them those of a function of interest go to the replacement
  -- of the first one that they called, and the others to where they went; and each byte that is
  -- changed is one of the offset of a call that is visited.
  pub do_process_area-Redirected :
      (mem mem' : Memory)
      → do_process_area decode (some froms) (some tos) nfuncs mem kbeg kend ≡ done mem'
      → ((s : ℕ)
          → Visited decode kend mem' kbeg s
          → s + 4 < kend
          → Redirected decode froms tos nfuncs mem mem' s (decode mem s))
        × ((x : ℕ) → (mem' x ≡ mem x) ⊎ InOffset decode kend mem' kbeg x)
  unfolding do_process_area
  do_process_area-Redirected mem mem' q = elim (Bool-cases (kbeg == 0)) [
    | inl e ↦ not_done (then_part _ _ e q)
    | inr e ↦ elim (Bool-cases (kend == 0)) [
      | inl f ↦ not_done (then_part _ _ f (else_part _ _ e q))
      | inr f ↦ elim (Bool-cases (ltb kend kbeg)) [
        | inl g ↦ not_done (then_part _ _ g (else_part _ _ f (else_part _ _ e q)))
        | inr g ↦
            let r =
              process_from-Rewritten (suc (kend - kbeg)) mem kbeg mem' (omega arith)
                (else_part _ _ g (else_part _ _ f (else_part _ _ e q))) in
            (r.sites, r.changes)
      ]
    ]
  ]
