-- ===== src/Udp/Packets.antt =====
-- The packets of a source among all packets.
use p2p_netcat_go_wrk.Common.{
  ◌≡◌, refl, Bool-cases, inl, inr, List, [], ◌∷◌, ◌++◌, if◌then◌else◌, Bytes,
}
use p2p_netcat_go_wrk.Common.Text.{bytes_eq}

-- Some elements of a list, in its order.
pub data Subsequence {A : Type 0} : List A → List A → Type 0 where
  empty : Subsequence [] []
  passed : {a : A} {xs ys : List A} → Subsequence xs ys → Subsequence xs (a ∷ ys)
  kept : {a : A} {xs ys : List A} → Subsequence xs ys → Subsequence (a ∷ xs) (a ∷ ys)

module _ {A : Type 0} where
  pub Subsequence-passed :
      (xs ys : List A) (a : A) → Subsequence xs ys → Subsequence xs (ys ++ a ∷ [])
  Subsequence-passed xs ys a empty = passed empty
  Subsequence-passed xs ys a (passed {ys = ys'} s) = passed (Subsequence-passed xs ys' a s)
  Subsequence-passed xs ys a (kept {xs = xs'} {ys = ys'} s) = kept (Subsequence-passed xs' ys' a s)

  pub Subsequence-kept :
      (xs ys : List A) (a : A) → Subsequence xs ys → Subsequence (xs ++ a ∷ []) (ys ++ a ∷ [])
  Subsequence-kept xs ys a empty = kept empty
  Subsequence-kept xs ys a (passed {ys = ys'} s) = passed (Subsequence-kept xs ys' a s)
  Subsequence-kept xs ys a (kept {xs = xs'} {ys = ys'} s) = kept (Subsequence-kept xs' ys' a s)

-- What a source sent, of all packets that were read.
abbrev pub packets_of : Bytes → List (Bytes × Bytes) → List Bytes
packets_of key [] = []
packets_of key ((source, payload) ∷ read) =
    let rest = packets_of key read in if bytes_eq source key then payload ∷ rest else rest

pub packets_of-append :
    (key : Bytes) (read more : List (Bytes × Bytes))
    → packets_of key (read ++ more) ≡ packets_of key read ++ packets_of key more
packets_of-append key [] more = refl
packets_of-append key ((source, payload) ∷ read) more = elim (Bool-cases (bytes_eq source key)) [
  | inl e ↦ rw (e, packets_of-append key read more)
  | inr e ↦ rw (e, packets_of-append key read more)
]

pub Subsequence-none : (ys : List Bytes) → Subsequence [] ys
Subsequence-none [] = empty
Subsequence-none (y ∷ ys) = passed (Subsequence-none ys)
