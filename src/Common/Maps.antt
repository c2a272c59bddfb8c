-- ===== src/Common/Maps.antt =====
-- Go's maps from strings: lists of entries without an order that the program could rely on.
use mathlib.Core.Path.{◌≡◌, refl}
use mathlib.Core.Logic.{inl, inr}
use mathlib.Core.Bool.{false}
use mathlib.Core.Option.{Option, none, some}
use mathlib.Core.List.{List, [], ◌∷◌}
use Prim.Native.Nat.{◌≤◌}
use native.Mathlib.Omega.{arith}
use p2p_netcat_go_wrk.Common.Tests.{if◌then◌else◌, Bool-cases}
use p2p_netcat_go_wrk.Common.Lists.{Bytes, length}
use p2p_netcat_go_wrk.Common.Text.{bytes_eq, bytes_eq→eq}

module _ {ℓ} {A : Type ℓ} where
  unfoldable pub find : Bytes → List (Bytes × A) → Option A
  find name [] = none
  find name ((key, a) ∷ rest) = if bytes_eq key name then some a else find name rest

  unfoldable pub delete : Bytes → List (Bytes × A) → List (Bytes × A)
  delete name [] = []
  delete name ((key, a) ∷ rest) =
      let more = delete name rest in if bytes_eq key name then more else (key, a) ∷ more

  -- `m[name] = a`
  abbrev pub insert : Bytes → A → List (Bytes × A) → List (Bytes × A)
  insert name a m = (name, a) ∷ delete name m

  pub find-delete_other :
      (name other : Bytes) (entries : List (Bytes × A))
      → bytes_eq other name ≡ false
      → find name (delete other entries) ≡ find name entries
  unfolding find delete
  find-delete_other name other [] h = refl
  find-delete_other name other ((key, a) ∷ rest) h = elim (Bool-cases (bytes_eq key other)) [
    | inl gone ↦
        let same = bytes_eq→eq key other gone in
        let apart : bytes_eq key name ≡ false = rw same h in
        rw (gone, apart, find-delete_other name other rest h)
    | inr kept ↦ rw (kept, find-delete_other name other rest h)
  ]

  pub find-delete_same :
      (name : Bytes) (entries : List (Bytes × A)) → find name (delete name entries) ≡ none
  unfolding find delete
  find-delete_same name [] = refl
  find-delete_same name ((key, a) ∷ rest) = elim (Bool-cases (bytes_eq key name)) [
    | inl gone ↦ rw (gone, find-delete_same name rest)
    | inr kept ↦ rw (kept, kept, find-delete_same name rest)
  ]

  pub find-delete :
      (name key : Bytes) (m : List (Bytes × A))
      → find name (delete key m) ≡ (if bytes_eq key name then none else find name m)
  find-delete name key m = elim (Bool-cases (bytes_eq key name)) [
    | inl e ↦ let same = bytes_eq→eq key name e in rw (e, same) (find-delete_same name m)
    | inr e ↦ rw e (find-delete_other name key m e)
  ]

  pub find-insert :
      (name key : Bytes) (a : A) (m : List (Bytes × A))
      → find name (insert key a m) ≡ (if bytes_eq key name then some a else find name m)
  unfolding find
  find-insert name key a m = ground (arith, find-delete name key m)

  pub length-delete : (key : Bytes) (m : List (Bytes × A)) → length (delete key m) ≤ length m
  unfolding delete
  length-delete key [] = omega arith
  length-delete key ((k, a) ∷ m) = ground (arith, length-delete key m)
