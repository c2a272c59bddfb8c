-- ===== src/Common/Lists.antt =====
-- Lists measured and cut by native numbers, under the library's names.
use Prim.Native.Nat.{ℕ, zero, suc, ◌+◌, ◌-◌, ◌<◌, min}
use mathlib.Core.Path.{◌≡◌, refl, ap}
use mathlib.Core.Logic.{◌≢◌, ◌⊎◌, inl, inr}
use mathlib.Core.Option
use mathlib.Core.Option.{Option, none, some}
use mathlib.Core.List.{List, [], ◌∷◌, ◌++◌}
use native.Mathlib.Omega.{arith}

-- A byte string of the program, also a Go `string` read as its bytes.
abbrev pub Bytes : Type 0
Bytes = List ℕ

abbrev pub IsByte : ℕ → Type 0
IsByte b = b < 256

module _ {ℓ} {A : Type ℓ} where
  abbrev pub length : List A → ℕ
  length [] = 0
  length (x ∷ xs) = suc (length xs)

  abbrev pub take : ℕ → List A → List A
  take zero xs = []
  take (suc n) [] = []
  take (suc n) (x ∷ xs) = x ∷ take n xs

  abbrev pub drop : ℕ → List A → List A
  drop zero xs = xs
  drop (suc n) [] = []
  drop (suc n) (x ∷ xs) = drop n xs

  abbrev pub replicate : ℕ → A → List A
  replicate zero a = []
  replicate (suc n) a = a ∷ replicate n a

  abbrev pub All {κ} : (A → Type κ) → List A → Type κ
  All P [] = Unit {κ}
  All P (x ∷ xs) = P x × All P xs

  pub length-append : (xs ys : List A) → length (xs ++ ys) ≡ length xs + length ys
  length-append [] ys = omega arith
  length-append (x ∷ xs) ys = omega (arith, length-append xs ys)

  pub take-append-drop : (n : ℕ) (xs : List A) → take n xs ++ drop n xs ≡ xs
  take-append-drop zero xs = refl
  take-append-drop (suc n) [] = refl
  take-append-drop (suc n) (x ∷ xs) = ap (λ l. x ∷ l) (take-append-drop n xs)

  pub length-take : (n : ℕ) (xs : List A) → length (take n xs) ≡ min n (length xs)
  length-take zero xs = omega arith
  length-take (suc n) [] = omega arith
  length-take (suc n) (x ∷ xs) = omega (arith, length-take n xs)

  pub length-drop : (n : ℕ) (xs : List A) → length (drop n xs) ≡ length xs - n
  length-drop zero xs = omega arith
  length-drop (suc n) [] = omega arith
  length-drop (suc n) (x ∷ xs) = omega (arith, length-drop n xs)

  pub length-replicate : (n : ℕ) (a : A) → length (replicate n a) ≡ n
  length-replicate zero a = refl
  length-replicate (suc n) a = ap suc (length-replicate n a)

  pub take-append_length : (xs ys : List A) → take (length xs) (xs ++ ys) ≡ xs
  take-append_length [] ys = refl
  take-append_length (x ∷ xs) ys = ap (λ l. x ∷ l) (take-append_length xs ys)

  pub drop-append_length : (xs ys : List A) → drop (length xs) (xs ++ ys) ≡ ys
  drop-append_length [] ys = refl
  drop-append_length (x ∷ xs) ys = drop-append_length xs ys

  -- The same at a number that is known to be the length.
  pub take-append_eq : (n : ℕ) (xs ys : List A) → length xs ≡ n → take n (xs ++ ys) ≡ xs
  take-append_eq n xs ys h = rw (← h) (take-append_length xs ys)

  pub drop-append_eq : (n : ℕ) (xs ys : List A) → length xs ≡ n → drop n (xs ++ ys) ≡ ys
  drop-append_eq n xs ys h = rw (← h) (drop-append_length xs ys)

  pub take-length : (xs : List A) → take (length xs) xs ≡ xs
  take-length [] = refl
  take-length (x ∷ xs) = ap (λ l. x ∷ l) (take-length xs)

  pub drop-length : (xs : List A) → drop (length xs) xs ≡ []
  drop-length [] = refl
  drop-length (x ∷ xs) = drop-length xs

module _ {ℓ κ} {A : Type ℓ} (P : A → Type κ) where
  pub All-append : (xs ys : List A) → All P xs → All P ys → All P (xs ++ ys)
  All-append [] ys hx hy = hy
  All-append (x ∷ xs) ys hx hy = (hx.0, All-append xs ys hx.1 hy)

  pub All-take : (n : ℕ) (xs : List A) → All P xs → All P (take n xs)
  All-take ℕ.zero xs h = tt
  All-take (ℕ.suc n) [] h = tt
  All-take (ℕ.suc n) (x ∷ xs) h = (h.0, All-take n xs h.1)

  pub All-drop : (n : ℕ) (xs : List A) → All P xs → All P (drop n xs)
  All-drop ℕ.zero xs h = h
  All-drop (ℕ.suc n) [] h = tt
  All-drop (ℕ.suc n) (x ∷ xs) h = All-drop n xs h.1

module _ {ℓ} {A : Type ℓ} where
  abbrev pub get_elem? : List A → ℕ → Option A
  get_elem? [] i = none
  get_elem? (x ∷ xs) zero = some x
  get_elem? (x ∷ xs) (suc i) = get_elem? xs i

  -- A write through the function; out of range it changes nothing.
  abbrev pub modify : ℕ → (A → A) → List A → List A
  modify i f [] = []
  modify zero f (x ∷ xs) = f x ∷ xs
  modify (suc i) f (x ∷ xs) = x ∷ modify i f xs

  pub get_elem?-modify_same :
      (i : ℕ) (f : A → A) (xs : List A) (a : A)
      → get_elem? xs i ≡ some a
      → get_elem? (modify i f xs) i ≡ some (f a)
  get_elem?-modify_same i f [] a h = cc
  get_elem?-modify_same zero f (x ∷ xs) a h = ap (λ (o : Option A). Option.map f o) h
  get_elem?-modify_same (suc i) f (x ∷ xs) a h = get_elem?-modify_same i f xs a h

  pub get_elem?-modify_other :
      (i j : ℕ) (f : A → A) (xs : List A) → i ≢ j → get_elem? (modify i f xs) j ≡ get_elem? xs j
  get_elem?-modify_other i j f [] h = refl
  get_elem?-modify_other zero zero f (x ∷ xs) h = elim (h refl) [ ]
  get_elem?-modify_other zero (suc j) f (x ∷ xs) h = refl
  get_elem?-modify_other (suc i) zero f (x ∷ xs) h = refl
  get_elem?-modify_other (suc i) (suc j) f (x ∷ xs) h =
      get_elem?-modify_other i j f xs (λ e. h (ap suc e))

  pub length-modify : (i : ℕ) (f : A → A) (xs : List A) → length (modify i f xs) ≡ length xs
  length-modify i f [] = refl
  length-modify zero f (x ∷ xs) = refl
  length-modify (suc i) f (x ∷ xs) = ap suc (length-modify i f xs)

  pub get_elem?-append :
      (xs ys : List A) (i : ℕ) (a : A) → get_elem? xs i ≡ some a → get_elem? (xs ++ ys) i ≡ some a
  get_elem?-append [] ys i a h = cc
  get_elem?-append (x ∷ xs) ys zero a h = h
  get_elem?-append (x ∷ xs) ys (suc i) a h = get_elem?-append xs ys i a h

  pub get_elem?-length : (xs : List A) (a : A) → get_elem? (xs ++ a ∷ []) (length xs) ≡ some a
  get_elem?-length [] a = refl
  get_elem?-length (x ∷ xs) a = get_elem?-length xs a

  pub get_elem?-lt : (xs : List A) (i : ℕ) (a : A) → get_elem? xs i ≡ some a → i < length xs
  get_elem?-lt [] i a h = cc
  get_elem?-lt (x ∷ xs) zero a h = omega arith
  get_elem?-lt (x ∷ xs) (suc i) a h = omega (arith, get_elem?-lt xs i a h)

  -- What stands at a place after a write: what was written there, or what was there before.
  pub get_elem?-modify :
      (i j : ℕ) (f : A → A) (xs : List A) (b : A)
      → get_elem? (modify i f xs) j ≡ some b
      → (a : A) × (get_elem? xs j ≡ some a) × (((i ≡ j) × (b ≡ f a)) ⊎ ((i ≢ j) × (b ≡ a)))
  get_elem?-modify i j f [] b h = cc
  get_elem?-modify zero zero f (x ∷ xs) b h = (x, refl, inl (refl, cc (h)))
  get_elem?-modify zero (suc j) f (x ∷ xs) b h = (b, h, inr (λ e. omega (arith, e), refl))
  get_elem?-modify (suc i) zero f (x ∷ xs) b h = (b, h, inr (λ e. omega (arith, e), refl))
  get_elem?-modify (suc i) (suc j) f (x ∷ xs) b h =
      let (a, found, which) = get_elem?-modify i j f xs b h in
      (
        a,
        found,
        elim which [
          | inl (e, same) ↦ inl (ap suc e, same)
          | inr (apart, same) ↦ inr (λ e. apart (omega (arith, e)), same)
        ],
      )

  -- What stands at a place of a list with one more element.
  pub get_elem?-append_some :
      (xs : List A) (x : A) (i : ℕ) (b : A)
      → get_elem? (xs ++ x ∷ []) i ≡ some b
      → (get_elem? xs i ≡ some b) ⊎ ((i ≡ length xs) × (b ≡ x))
  get_elem?-append_some [] x zero b h = inr (refl, cc (h))
  get_elem?-append_some [] x (suc i) b h = cc
  get_elem?-append_some (y ∷ xs) x zero b h = inl h
  get_elem?-append_some (y ∷ xs) x (suc i) b h = elim (get_elem?-append_some xs x i b h) [
    | inl found ↦ inl found
    | inr (e, same) ↦ inr (ap suc e, same)
  ]
