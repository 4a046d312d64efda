-- ===== src/Mist/Strings/Trim.antt =====
-- What mist_string_trim leaves.
use kedr_aux.Prelude.{
  ℕ, zero, suc, ◌≤◌, ◌<◌, Bool, true, false, ◌&&◌, none, some, List, [], ◌∷◌, ◌++◌, append-nil,
  append_assoc, ◌==◌, ◌≡◌, ◌⊎◌, refl, sym, ap, ◌∙◌, arith, leb, length, length-drop, get_elem?-lt,
  take-suc, length-take_le, take-append-drop, drop-append_le, drop-take_self, take-length,
  get_elem?-take, take-take_le, get_elem?, take, drop, if◌then◌else◌, Bool-cases, inl, inr,
}
use mathlib.Core.Bool.{false≢true}
use kedr_aux.Mist.Find.{
  among, or_end, if_other, mist_find_in_range_first_not_of, last_not_of_from,
  mist_find_in_range_last_not_of,
}
use kedr_aux.Mist.Names.{all}
use kedr_aux.Mist.Strings.{MistString, seps, end_new, mist_string_trim}
use kedr_aux.Mist.Strings.Bounds.{WellFormed}

abbrev pub is_sep : ℕ → Bool
is_sep c = among c seps

abbrev pub begins_with_sep : List ℕ → Bool
begins_with_sep [] = false
begins_with_sep (c ∷ cs) = is_sep c

abbrev pub ends_with_sep : List ℕ → Bool
ends_with_sep [] = false
ends_with_sep (c ∷ []) = is_sep c
ends_with_sep (c ∷ d ∷ cs) = ends_with_sep (d ∷ cs)

-- `t` is `s` without the separators at both ends.
pub record Trimmed (s t : List ℕ) : Type 0 where
  pub left : List ℕ
  pub right : List ℕ
  pub split : s ≡ left ++ (t ++ right)
  pub left_seps : all is_sep left ≡ true
  pub right_seps : all is_sep right ≡ true
  pub begins : begins_with_sep t ≡ false
  pub ends : ends_with_sep t ≡ false

ends-append_one : (xs : List ℕ) (c : ℕ) → ends_with_sep (xs ++ (c ∷ [])) ≡ is_sep c
ends-append_one [] c = refl
ends-append_one (x ∷ []) c = refl
ends-append_one (x ∷ y ∷ xs) c = ends-append_one (y ∷ xs) c

-- what the search from the left finds
first_lem :
    (s : List ℕ)
    → ((mist_find_in_range_first_not_of s seps ≡ length s) × (all is_sep s ≡ true))
      ⊎ ((mist_find_in_range_first_not_of s seps < length s)
          × (all is_sep (take (mist_find_in_range_first_not_of s seps) s) ≡ true)
          × ((c : ℕ) × (get_elem? s (mist_find_in_range_first_not_of s seps) ≡ some c)
              × (is_sep c ≡ false)))
unfolding mist_find_in_range_first_not_of
first_lem [] = inl (refl, refl)
first_lem (c ∷ cs) = elim (Bool-cases (among c seps)) [
  | inr e ↦ rw e (inr (omega arith, refl, (c, refl, e)))
  | inl e ↦ elim (first_lem cs) [
    | inl (p, q) ↦ inl (rw e (ap suc p), rw e q)
    | inr (p, q, r) ↦ inr (rw e (omega (arith, p)), rw (e, e) q, rw e r)
  ]
]

all-append : (p : ℕ → Bool) (xs ys : List ℕ) → all p (xs ++ ys) ≡ (all p xs && all p ys)
all-append p [] ys = refl
all-append p (x ∷ xs) ys = ground (arith, all-append p xs ys)

-- what the search from the right finds in the first `n` bytes
LastFound : ℕ → List ℕ → Type 0
LastFound n s =
    ((last_not_of_from n s seps ≡ none) × (all is_sep (take n s) ≡ true))
    ⊎ ((k : ℕ) × (last_not_of_from n s seps ≡ some k)
        × (k < n)
        × (all is_sep (drop (suc k) (take n s)) ≡ true)
        × ((c : ℕ) × (get_elem? s k ≡ some c) × (is_sep c ≡ false)))

last_step :
    (n : ℕ) (s : List ℕ) (c : ℕ)
    → n < length s
    → get_elem? s n ≡ some c
    → LastFound n s
    → LastFound (suc n) s
unfolding LastFound last_not_of_from
last_step n s c h e found = elim (Bool-cases (is_sep c)) [
  | inr f ↦ inr (n, seen ∙ rw f refl, omega arith, rw (drop-take_self (suc n) s) refl, (c, e, f))
  | inl f ↦ elim found [
    | inl (p, a) ↦
        inl (seen ∙ rw f p, rw (take-suc n s c e, all-append is_sep (take n s) (c ∷ []), a, f) refl)
    | inr (k, p, l, a, w) ↦ inr (
      k,
      seen ∙ rw f p,
      omega (arith, l),
      rw
          (
            take-suc n s c e,
            drop-append_le (suc k) (take n s) (c ∷ [])
                (omega (arith, l, length-take_le n s (omega (arith, h)))),
            all-append is_sep (drop (suc k) (take n s)) (c ∷ []),
            a,
            f,
          )
          refl,
      w,
    )
  ]
]
  where
    seen :
        last_not_of_from (suc n) s seps ≡ (if is_sep c then last_not_of_from n s seps else some n)
    seen = ap (λ o. if_other o seps (last_not_of_from n s seps) n) e

last_lem : (n : ℕ) (s : List ℕ) → n ≤ length s → LastFound n s
unfolding LastFound last_not_of_from
last_lem zero s h = inl (refl, refl)
last_lem (suc n) s h =
    let (c, e) = get_elem?-lt n s (omega (arith, h)) in
    last_step n s c (omega (arith, h)) e (last_lem n s (omega (arith, h)))

all-get_elem? :
    (p : ℕ → Bool) (i j : ℕ) (s : List ℕ) (c : ℕ)
    → all p (drop i s) ≡ true
    → i ≤ j
    → get_elem? s j ≡ some c
    → p c ≡ true
all-get_elem? p zero j [] c a h e = cc
all-get_elem? p (suc i) j [] c a h e = cc
all-get_elem? p zero zero (d ∷ s) c a h e = ground (arith, a, e)
all-get_elem? p zero (suc j) (d ∷ s) c a h e =
    all-get_elem? p zero j s c (ground (arith, a)) (omega arith) e
all-get_elem? p (suc i) zero (d ∷ s) c a h e = absurd (omega (arith, h))
all-get_elem? p (suc i) (suc j) (d ∷ s) c a h e = all-get_elem? p i j s c a (omega (arith, h)) e

begins-drop :
    (b : ℕ) (s : List ℕ) (c : ℕ) → get_elem? s b ≡ some c → begins_with_sep (drop b s) ≡ is_sep c
begins-drop b [] c e = cc
begins-drop zero (d ∷ s) c e = cc
begins-drop (suc b) (d ∷ s) c e = begins-drop b s c e

-- the bytes from the first to the last one that is no separator
between-Trimmed :
    (s : List ℕ) (b k c d : ℕ)
    → b ≤ k
    → k < length s
    → all is_sep (take b s) ≡ true
    → all is_sep (drop (suc k) s) ≡ true
    → get_elem? s b ≡ some c
    → is_sep c ≡ false
    → get_elem? s k ≡ some d
    → is_sep d ≡ false
    → Trimmed s (drop b (take (suc k) s))
between-Trimmed s b k c d h hk l r eb cb ek ck = record {
  left = take b s;
  right = drop (suc k) s;
  split =
      sym (take-append-drop (suc k) s)
      ∙ ap (λ t. t ++ drop (suc k) s) (sym (take-append-drop b (take (suc k) s)))
      ∙ append_assoc (take b (take (suc k) s)) (drop b (take (suc k) s)) (drop (suc k) s)
      ∙ ap (λ t. t ++ (drop b (take (suc k) s) ++ drop (suc k) s))
          (take-take_le b (suc k) s (omega (arith, h)));
  left_seps = l;
  right_seps = r;
  begins =
      begins-drop b (take (suc k) s) c (get_elem?-take b (suc k) s (omega (arith, h)) ∙ eb) ∙ cb;
  ends =
      ap ends_with_sep (
        ap (drop b) (take-suc k s d ek)
        ∙ drop-append_le b (take k s) (d ∷ [])
            (omega (arith, h, length-take_le k s (omega (arith, hk)))))
      ∙ ends-append_one (drop b (take k s)) d
      ∙ ck;
}

-- the last byte that is no separator, where there is one
last_other :
    (s : List ℕ) (b c : ℕ)
    → get_elem? s b ≡ some c
    → is_sep c ≡ false
    → (k : ℕ) × (end_new s ≡ suc k)
      × (b ≤ k)
      × (k < length s)
      × (all is_sep (drop (suc k) s) ≡ true)
      × ((d : ℕ) × (get_elem? s k ≡ some d) × (is_sep d ≡ false))
unfolding LastFound mist_find_in_range_last_not_of
last_other s b c e f = elim (last_lem (length s) s (omega arith)) [
  | inl (p, a) ↦
      absurd
        (false≢true (sym f ∙ all-get_elem? is_sep 0 b s c (rw take-length at a) (omega arith) e))
  | inr (k, p, l, a, w) ↦ (
    k,
    found k p l,
    (elim (Bool-cases (leb b k)) [
      | inl q ↦ ground (arith, q)
      | inr q ↦ absurd (
          false≢true (
            sym f ∙ all-get_elem? is_sep (suc k) b s c (rw take-length at a) (ground (arith, q)) e))
    ]),
    l,
    (rw take-length at a),
    w,
  )
]
  where
    found : (k : ℕ) → last_not_of_from (length s) s seps ≡ some k → k < length s → end_new s ≡ suc k
    found k p l =
        let differs : (k == length s) ≡ false = ground (arith, l) in
        ap
          (λ o.
            if or_end o (length s) == length s
            then or_end o (length s)
            else suc (or_end o (length s)))
          p
        ∙ rw differs refl

empty-Trimmed : (s : List ℕ) → length s ≡ 0 → Trimmed s s
empty-Trimmed [] h = record {
  left = [];
  right = [];
  split = refl;
  left_seps = refl;
  right_seps = refl;
  begins = refl;
  ends = refl;
}
empty-Trimmed (c ∷ cs) h = absurd (omega (arith, h))

seps-Trimmed : (s : List ℕ) → all is_sep s ≡ true → Trimmed s []
seps-Trimmed s a = record {
  left = s;
  right = [];
  split = sym (append-nil s);
  left_seps = a;
  right_seps = refl;
  begins = refl;
  ends = refl;
}

-- mist_string_trim leaves the text without the separators at both ends, in the same buffer, and a
-- well-formed string well-formed.
pub mist_string_trim-Trimmed :
    (ms : MistString)
    → WellFormed ms
    → Trimmed ms.text (mist_string_trim ms).text × WellFormed (mist_string_trim ms)
unfolding mist_string_trim
mist_string_trim-Trimmed ms wf = elim (Bool-cases (length ms.text == 0)) [
  | inl z ↦ rw z (empty-Trimmed ms.text (ground (arith, z)), wf)
  | inr z ↦ rw z (elim (first_lem ms.text) [
    | inl (p, a) ↦
        let whole : (mist_find_in_range_first_not_of ms.text seps == length ms.text) ≡ true =
          ground (arith, p) in
        rw whole
          (seps-Trimmed ms.text a, record { inside = omega (arith, wf.inside); small = wf.small })
    | inr (p, a, (c, e, f)) ↦
        let part : (mist_find_in_range_first_not_of ms.text seps == length ms.text) ≡ false =
          ground (arith, p) in
        let (k, q, h, l, r, (d, g, o)) =
          last_other ms.text (mist_find_in_range_first_not_of ms.text seps) c e f in
        rw (part, q)
          (
            between-Trimmed ms.text (mist_find_in_range_first_not_of ms.text seps) k c d h l a r e f
                g o,
            record {
              inside = omega (
                arith,
                wf.inside,
                h,
                l,
                length-drop (mist_find_in_range_first_not_of ms.text seps) (take (suc k) ms.text),
                length-take_le (suc k) ms.text (omega (arith, l)),
              );
              small = wf.small;
            },
          )
  ])
]
