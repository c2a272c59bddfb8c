-- ===== src/Common/Sorted.antt =====
-- Sorting by a strict order, as `sort.Slice` and `sort.Strings` leave a list without equal elements.
use mathlib.Core.Path.{◌≡◌, refl, ap, sym, subst, ◌∙◌}
use mathlib.Core.Logic.{◌≢◌, ◌↔◌, inl, inr}
use mathlib.Core.Bool.{Bool, true, false, ◌||◌}
use mathlib.Core.List.{List, [], ◌∷◌, ◌++◌}
use Prim.Native.Nat.{◌+◌}
use native.Mathlib.Omega.{arith}
use p2p_netcat_go_wrk.Common.Tests.{ltb, ◌==◌, if◌then◌else◌, Bool-cases}
use p2p_netcat_go_wrk.Common.Lists.{Bytes, All, length}

module _ {A : Type 0} (before : A → A → Bool) where
  abbrev pub insert_sorted : A → List A → List A
  insert_sorted a [] = a ∷ []
  insert_sorted a (b ∷ bs) =
      let rest = insert_sorted a bs in if before b a then b ∷ rest else a ∷ b ∷ bs

  unfoldable pub sort : List A → List A
  sort [] = []
  sort (a ∷ as_) = insert_sorted a (sort as_)

  -- Strictly ascending.
  abbrev pub Ascending : List A → Type 0
  Ascending [] = Unit
  Ascending (a ∷ rest) = All (λ (b : A). before a b ≡ true) rest × Ascending rest

module _ {A : Type 0} (eq : A → A → Bool) where
  unfoldable pub member : A → List A → Bool
  member a [] = false
  member a (b ∷ bs) = eq b a || member a bs

  member-insert_sorted :
      (before : A → A → Bool) (a b : A) (bs : List A)
      → member a (insert_sorted before b bs) ≡ (eq b a || member a bs)
  unfolding member
  member-insert_sorted before a b [] = refl
  member-insert_sorted before a b (c ∷ bs) = ground (arith, member-insert_sorted before a b bs)

  pub member-append : (a : A) (xs ys : List A) → member a (xs ++ ys) ≡ (member a xs || member a ys)
  unfolding member
  member-append a [] ys = refl
  member-append a (x ∷ xs) ys = ground (arith, member-append a xs ys)

  length-insert_sorted :
      (before : A → A → Bool) (b : A) (bs : List A)
      → length (insert_sorted before b bs) ≡ length bs + 1
  length-insert_sorted before b [] = refl
  length-insert_sorted before b (c ∷ bs) = ground (arith, length-insert_sorted before b bs)

  pub length-sort : (before : A → A → Bool) (as_ : List A) → length (sort before as_) ≡ length as_
  unfolding sort
  length-sort before [] = refl
  length-sort before (b ∷ as_) =
      omega (arith, length-insert_sorted before b (sort before as_), length-sort before as_)

  pub member-sort :
      (before : A → A → Bool) (a : A) (as_ : List A) → member a (sort before as_) ≡ member a as_
  unfolding member sort
  member-sort before a [] = refl
  member-sort before a (b ∷ as_) =
      ground (arith, member-insert_sorted before a b (sort before as_), member-sort before a as_)

-- A strict total order.
pub record StrictOrder {A : Type 0} (before : A → A → Bool) : Type 0 where
  pub trans : (a b c : A) → before a b ≡ true → before b c ≡ true → before a c ≡ true
  pub total : (a b : A) → before a b ≡ false → before b a ≡ false → a ≡ b
  pub irrefl : (a : A) → before a a ≡ false

module _ {A : Type 0} (before : A → A → Bool) (law : StrictOrder before) where
  abbrev pub Differs : A → List A → Type 0
  Differs a as_ = All (λ (b : A). a ≢ b) as_

  All-insert_sorted :
      (P : A → Type 0) (a : A) (bs : List A) → P a → All P bs → All P (insert_sorted before a bs)
  All-insert_sorted P a [] p ps = (p, tt)
  All-insert_sorted P a (b ∷ bs) p (q, ps) = elim (Bool-cases (before b a)) [
    | inl e ↦ rw e (q, All-insert_sorted P a bs p ps)
    | inr e ↦ rw e (p, (q, ps))
  ]

  All-after :
      (a b : A) (bs : List A)
      → before a b ≡ true
      → All (λ (c : A). before b c ≡ true) bs
      → All (λ (c : A). before a c ≡ true) bs
  All-after a b [] h hs = tt
  All-after a b (c ∷ bs) h (k, ks) = (law.trans a b c h k, All-after a b bs h ks)

  -- A new element keeps the list ascending.
  pub Ascending-insert_sorted :
      (a : A) (bs : List A)
      → Differs a bs
      → Ascending before bs
      → Ascending before (insert_sorted before a bs)
  Ascending-insert_sorted a [] d s = (tt, tt)
  Ascending-insert_sorted a (b ∷ bs) (d, ds) (h, hs) = elim (Bool-cases (before b a)) [
    | inl e ↦ rw e (
      All-insert_sorted (λ (c : A). before b c ≡ true) a bs e h,
      Ascending-insert_sorted a bs ds hs,
    )
    | inr e ↦
        let first : before a b ≡ true = elim (Bool-cases (before a b)) [
          | inl e' ↦ e'
          | inr e' ↦ elim (d (law.total a b e' e)) [ ]
        ] in
        rw e ((first, All-after a b bs first h), (h, hs))
  ]

  -- A list that ascends is left as it is.
  insert_sorted_first :
      (a : A) (bs : List A)
      → All (λ (b : A). before a b ≡ true) bs
      → insert_sorted before a bs ≡ a ∷ bs
  insert_sorted_first a [] h = refl
  insert_sorted_first a (b ∷ bs) (h, hs) = elim (Bool-cases (before b a)) [
    | inl e ↦ cc (law.trans a b a h e, law.irrefl a)
    | inr e ↦ rw e refl
  ]

  pub sort-Ascending : (as_ : List A) → Ascending before as_ → sort before as_ ≡ as_
  unfolding sort
  sort-Ascending [] s = refl
  sort-Ascending (a ∷ as_) (h, hs) = rw (sort-Ascending as_ hs) (insert_sorted_first a as_ h)

  -- No element is equal to a later one.
  abbrev pub Distinct : List A → Type 0
  Distinct [] = Unit
  Distinct (a ∷ rest) = Differs a rest × Distinct rest

  Differs-insert_sorted :
      (a b : A) (bs : List A) → a ≢ b → Differs a bs → Differs a (insert_sorted before b bs)
  Differs-insert_sorted a b bs h hs = All-insert_sorted (λ (c : A). a ≢ c) b bs h hs

  Differs-sort : (a : A) (as_ : List A) → Differs a as_ → Differs a (sort before as_)
  unfolding sort
  Differs-sort a [] d = tt
  Differs-sort a (b ∷ as_) (d, ds) =
      Differs-insert_sorted a b (sort before as_) d (Differs-sort a as_ ds)

  pub Ascending-sort : (as_ : List A) → Distinct as_ → Ascending before (sort before as_)
  unfolding sort
  Ascending-sort [] d = tt
  Ascending-sort (a ∷ as_) (d, ds) =
      Ascending-insert_sorted a (sort before as_) (Differs-sort a as_ d) (Ascending-sort as_ ds)

  All-Differs : (a : A) (as_ : List A) → All (λ (b : A). before a b ≡ true) as_ → Differs a as_
  All-Differs a [] h = tt
  All-Differs a (b ∷ as_) (h, hs) =
      (λ e. cc (law.irrefl a, h, ap (λ (x : A). before a x) e), All-Differs a as_ hs)

  pub Distinct-Ascending : (as_ : List A) → Ascending before as_ → Distinct as_
  Distinct-Ascending [] s = tt
  Distinct-Ascending (a ∷ as_) (h, hs) = (All-Differs a as_ h, Distinct-Ascending as_ hs)

module _ {A : Type 0} (before eq : A → A → Bool) (law : StrictOrder before)
    (is_eq : (a b : A) → (eq a b ≡ true) ↔ (a ≡ b)) where
  eq_self : (a : A) → eq a a ≡ true
  eq_self a = (is_eq a a).1 refl

  eq_apart : (a b : A) → eq a b ≡ false → eq b a ≡ false
  eq_apart a b h = elim (Bool-cases (eq b a)) [
    | inl e ↦ cc (h, (is_eq a b).1 (sym ((is_eq b a).0 e)))
    | inr e ↦ e
  ]

  member_least :
      (a b : A) (bs : List A)
      → All (λ (c : A). before b c ≡ true) bs
      → member eq a bs ≡ true
      → before b a ≡ true
  unfolding member
  member_least a b [] h m = cc
  member_least a b (c ∷ bs) (h, hs) m = elim (Bool-cases (eq c a)) [
    | inl e ↦ subst (λ (x : A). before b x ≡ true) ((is_eq c a).0 e) h
    | inr e ↦ member_least a b bs hs (rw e at m)
  ]

  -- An element below all of a list is not in it.
  not_member :
      (a : A) (bs : List A) → All (λ (c : A). before a c ≡ true) bs → member eq a bs ≡ false
  not_member a bs h = elim (Bool-cases (member eq a bs)) [
    | inl m ↦ cc (member_least a a bs h m, law.irrefl a)
    | inr m ↦ m
  ]

  head_same :
      (a b : A) (as_ bs : List A)
      → Ascending before (a ∷ as_)
      → Ascending before (b ∷ bs)
      → ((x : A) → member eq x (a ∷ as_) ≡ member eq x (b ∷ bs))
      → a ≡ b
  unfolding member
  head_same a b as_ bs (h, hs) (k, ks) same = elim (Bool-cases (eq a b)) [
    | inl e ↦ (is_eq a b).0 e
    | inr e ↦
        let apart : eq b a ≡ false = eq_apart a b e in
        let down : before b a ≡ true = member_least a b bs k (ground (arith, same a, eq_self a)) in
        let up : before a b ≡ true = member_least b a as_ h (ground (arith, same b, eq_self b)) in
        cc (law.trans a b a up down, law.irrefl a)
  ]

  tail_same :
      (a b : A) (as_ bs : List A)
      → a ≡ b
      → All (λ (c : A). before a c ≡ true) as_
      → All (λ (c : A). before b c ≡ true) bs
      → (x : A) → member eq x (a ∷ as_) ≡ member eq x (b ∷ bs)
      → member eq x as_ ≡ member eq x bs
  unfolding member
  tail_same a b as_ bs e h k x same = elim (Bool-cases (eq a x)) [
    | inl here ↦
        let ax = (is_eq a x).0 here in
        let left : member eq x as_ ≡ false =
          subst (λ (y : A). member eq y as_ ≡ false) ax (not_member a as_ h) in
        let right : member eq x bs ≡ false =
          subst (λ (y : A). member eq y bs ≡ false) (sym e ∙ ax) (not_member b bs k) in
        cc (left, right)
    | inr away ↦
        let away' : eq b x ≡ false = subst (λ (y : A). eq y x ≡ false) e away in ground arith
  ]

  -- An ascending list is determined by its elements.
  pub Ascending-unique :
      (as_ bs : List A)
      → Ascending before as_
      → Ascending before bs
      → ((x : A) → member eq x as_ ≡ member eq x bs)
      → as_ ≡ bs
  unfolding member
  Ascending-unique [] [] s t same = refl
  Ascending-unique [] (b ∷ bs) s t same =
      let bad : false ≡ true = ground (arith, same b, eq_self b) in cc (bad)
  Ascending-unique (a ∷ as_) [] s t same =
      let bad : false ≡ true = ground (arith, same a, eq_self a) in cc (bad)
  Ascending-unique (a ∷ as_) (b ∷ bs) s t same =
      let e : a ≡ b = head_same a b as_ bs s t same in
      let rest : as_ ≡ bs =
        Ascending-unique as_ bs s.1 t.1 (λ x. tail_same a b as_ bs e s.0 t.0 x (same x)) in
      rw (e, rest)

-- The numbers, and the strings byte by byte.
pub ltb-StrictOrder : StrictOrder ltb
ltb-StrictOrder = record {
  trans = λ a b c h k. ground arith;
  total = λ a b h k. ground arith;
  irrefl = λ a. ground arith;
}

unfoldable pub bytes_before : Bytes → Bytes → Bool
bytes_before [] [] = false
bytes_before [] (b ∷ t) = true
bytes_before (a ∷ s) [] = false
bytes_before (a ∷ s) (b ∷ t) = let rest = bytes_before s t in if a == b then rest else ltb a b

bytes_before_trans :
    (s t u : Bytes) → bytes_before s t ≡ true → bytes_before t u ≡ true → bytes_before s u ≡ true
unfolding bytes_before
bytes_before_trans [] [] u h k = cc
bytes_before_trans [] (b ∷ t) [] h k = cc
bytes_before_trans [] (b ∷ t) (c ∷ u) h k = refl
bytes_before_trans (a ∷ s) [] u h k = cc
bytes_before_trans (a ∷ s) (b ∷ t) [] h k = cc
bytes_before_trans (a ∷ s) (b ∷ t) (c ∷ u) h k = ground (arith, bytes_before_trans s t u)

bytes_before_total : (s t : Bytes) → bytes_before s t ≡ false → bytes_before t s ≡ false → s ≡ t
unfolding bytes_before
bytes_before_total [] [] h k = refl
bytes_before_total [] (b ∷ t) h k = cc
bytes_before_total (a ∷ s) [] h k = cc
bytes_before_total (a ∷ s) (b ∷ t) h k = ground (arith, bytes_before_total s t)

bytes_before_irrefl : (s : Bytes) → bytes_before s s ≡ false
unfolding bytes_before
bytes_before_irrefl [] = refl
bytes_before_irrefl (a ∷ s) = ground (arith, bytes_before_irrefl s)

pub bytes_before-StrictOrder : StrictOrder bytes_before
bytes_before-StrictOrder = record {
  trans = bytes_before_trans;
  total = bytes_before_total;
  irrefl = bytes_before_irrefl;
}
