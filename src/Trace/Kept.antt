-- ===== src/Trace/Kept.antt =====
-- The order and the number of the entries in the list of last messages, and list_insert.
use kedr_aux.Prelude.{
  ℕ, suc, ◌+◌, ◌≤◌, ◌<◌, Bool, false, not, none, some, List, [], ◌∷◌, ◌≡◌, refl, ap, subst, arith,
  length, if◌then◌else◌, Option-cases, inl, inr,
}
use kedr_aux.Trace.{LastMessage, list_insert, find_place, cpumask_test_cpu}

abbrev pub All : (LastMessage → Type 0) → List LastMessage → Type 0
All P [] = Unit
All P (x ∷ xs) = P x × All P xs

abbrev pub Sorted : List LastMessage → Type 0
Sorted [] = Unit
Sorted (x ∷ xs) = All (λ y. x.ts ≤ y.ts) xs × Sorted xs

-- how many entries a test holds for
unfoldable pub count : (LastMessage → Bool) → List LastMessage → ℕ
count p [] = 0
count p (x ∷ xs) = (if p x then 1 else 0) + count p xs

pub map-All :
    (P Q : LastMessage → Type 0) (xs : List LastMessage)
    → ((x : LastMessage) → P x → Q x)
    → All P xs
    → All Q xs
map-All P Q [] f h = h
map-All P Q (x ∷ xs) f (h, t) = (f x h, map-All P Q xs f t)

-- `ys` is `xs` with `m` in its place, behind the entries that are not younger
pub data Placed (m : LastMessage) : List LastMessage → List LastMessage → Type 0 where
  front : {xs ys : List LastMessage} → ys ≡ m ∷ xs → All (λ y. m.ts ≤ y.ts) xs → Placed m xs ys
  behind :
      {xs ys : List LastMessage} (x : LastMessage) (xs' ys' : List LastMessage)
      → xs ≡ x ∷ xs'
      → ys ≡ x ∷ ys'
      → x.ts ≤ m.ts
      → Placed m xs' ys'
      → Placed m xs ys

find_place-none :
    (m : LastMessage) (xs : List LastMessage) → find_place m xs ≡ none → All (λ y. m.ts ≤ y.ts) xs
unfolding find_place
find_place-none m [] h = tt
find_place-none m (x ∷ xs) h = elim (Option-cases (find_place m xs)) [
  | inl e ↦ (ground (arith, e, h), find_place-none m xs e)
  | inr (ys, e) ↦ absurd (ground (arith, e, h))
]

-- a bound of the entries is one of an entry that has a place behind one of them
find_place-le :
    (m : LastMessage) (t : ℕ) (xs ys : List LastMessage)
    → find_place m xs ≡ some ys
    → All (λ y. t ≤ y.ts) xs
    → t ≤ m.ts
unfolding find_place
find_place-le m t [] ys h l = absurd cc
find_place-le m t (x ∷ xs) ys h (a, l) = elim (Option-cases (find_place m xs)) [
  | inl e ↦ ground (arith, e, h, a)
  | inr (zs, e) ↦ find_place-le m t xs zs e l
]

find_place-Placed :
    (m : LastMessage) (xs ys : List LastMessage)
    → find_place m xs ≡ some ys
    → Sorted xs
    → Placed m xs ys
unfolding find_place
find_place-Placed m [] ys h s = absurd cc
find_place-Placed m (x ∷ xs) ys h (l, s) = elim (Option-cases (find_place m xs)) [
  | inl e ↦
      let le : x.ts ≤ m.ts = ground (arith, e, h) in
      behind x xs (m ∷ xs) refl (ground (arith, e, h)) le (front refl (find_place-none m xs e))
  | inr (zs, e) ↦
      behind x xs zs refl (ground (arith, e, h)) (find_place-le m x.ts xs zs e l)
        (find_place-Placed m xs zs e s)
]

pub list_insert-Placed :
    (m : LastMessage) (xs : List LastMessage) → Sorted xs → Placed m xs (list_insert m xs)
unfolding list_insert
list_insert-Placed m xs s = elim (Option-cases (find_place m xs)) [
  | inl e ↦ rw e (front refl (find_place-none m xs e))
  | inr (ys, e) ↦ rw e (find_place-Placed m xs ys e s)
]

pub Placed-All :
    (P : LastMessage → Type 0) {m : LastMessage} {xs ys : List LastMessage}
    → Placed m xs ys
    → P m
    → All P xs
    → All P ys
Placed-All P (front e l) h a = rw e (h, a)
Placed-All P (behind x xs' ys' e f l p) h a =
    let b = subst (All P) e a in rw f (b.0, Placed-All P p h b.1)

pub Placed-Sorted :
    {m : LastMessage} {xs ys : List LastMessage} → Placed m xs ys → Sorted xs → Sorted ys
Placed-Sorted (front e l) s = rw e (l, s)
Placed-Sorted (behind x xs' ys' e f l p) s =
    let t = subst Sorted e s in rw f (Placed-All (λ y. x.ts ≤ y.ts) p l t.0, Placed-Sorted p t.1)

pub Placed-count :
    (p : LastMessage → Bool) {m : LastMessage} {xs ys : List LastMessage}
    → Placed m xs ys
    → count p ys ≡ count p (m ∷ xs)
unfolding count
Placed-count p (front e l) = ap (count p) e
Placed-count p (behind x xs' ys' e f l q) = rw (e, f) (omega (arith, Placed-count p q))

pub length-Placed :
    {m : LastMessage} {xs ys : List LastMessage} → Placed m xs ys → length ys ≡ suc (length xs)
length-Placed (front e l) = ap length e
length-Placed (behind x xs' ys' e f l q) = rw (e, f) (omega (arith, length-Placed q))

-- the entries whose sub-buffers are not updated yet
abbrev pub unmarked : List ℕ → LastMessage → Bool
unmarked mask m = not (cpumask_test_cpu m.cpu mask)

pub count-unmarked :
    (cpu : ℕ) (mask : List ℕ) (xs : List LastMessage)
    → count (unmarked (cpu ∷ mask)) xs ≤ count (unmarked mask) xs
unfolding count cpumask_test_cpu
count-unmarked cpu mask [] = omega arith
count-unmarked cpu mask (x ∷ xs) = ground (arith, count-unmarked cpu mask xs)

-- a round marks one entry more
pub count-unmarked_suc :
    (mask : List ℕ) (m m' : LastMessage) (xs ys : List LastMessage)
    → m'.cpu ≡ m.cpu
    → cpumask_test_cpu m.cpu mask ≡ false
    → Placed m' xs ys
    → count (unmarked (m.cpu ∷ mask)) ys < count (unmarked mask) (m ∷ xs)
unfolding count cpumask_test_cpu
count-unmarked_suc mask m m' xs ys e f p =
    ground (arith, Placed-count (unmarked (m.cpu ∷ mask)) p, count-unmarked m.cpu mask xs)

pub count-le-length : (p : LastMessage → Bool) (xs : List LastMessage) → count p xs ≤ length xs
unfolding count
count-le-length p [] = omega arith
count-le-length p (x ∷ xs) = ground (arith, count-le-length p xs)
