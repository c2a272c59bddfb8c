-- ===== src/Socks/Field.antt =====
-- The text fields of a SOCKS4 request, which a NUL ends.
use p2p_netcat_go_wrk.Common.{
  ℕ, ◌+◌, ◌≤◌, ◌≡◌, ◌≢◌, ◌↔◌, ap, ◌∙◌, Bool-cases, inl, inr, [], ◌∷◌, ◌++◌, append-nil,
  append_assoc, arith, Bytes, All, length, length-append, ◌==◌, ok,
}
use p2p_netcat_go_wrk.Socks.{Error, read_field_loop, read_socks4_field}

abbrev pub NoZero : Bytes → Type 0
NoZero = All (λ b. b ≢ 0)

read_field_loop_ends :
    (maximum : ℕ) (e : Error) (value v rest : Bytes)
    → NoZero v
    → length value + length v ≤ maximum
    → read_field_loop maximum e value (v ++ 0 ∷ rest) ≡ ok (value ++ v, rest)
unfolding read_field_loop
read_field_loop_ends maximum e value [] rest h fits = rw append-nil
read_field_loop_ends maximum e value (b ∷ v) rest h fits = ground (
  arith,
  length-append value (b ∷ []),
  append_assoc value (b ∷ []) v,
  read_field_loop_ends maximum e (value ++ (b ∷ [])) v rest h.1,
)

read_field_loop_parts :
    (maximum : ℕ) (e : Error) (value s r rest : Bytes)
    → length value ≤ maximum
    → read_field_loop maximum e value s ≡ ok (r, rest)
    → (v : Bytes) × (r ≡ value ++ v) × (s ≡ v ++ 0 ∷ rest) × NoZero v × (length r ≤ maximum)
unfolding read_field_loop
read_field_loop_parts maximum e value [] r rest fits h = cc
read_field_loop_parts maximum e value (b ∷ s) r rest fits h = elim (Bool-cases (b == 0)) [
  | inl z ↦
      ([], ground (arith, append-nil value), ground (arith, append-nil value), tt, ground arith)
  | inr nz ↦
      let more =
        read_field_loop_parts maximum e (value ++ (b ∷ [])) s r rest
          (ground (arith, length-append value (b ∷ []))) (ground arith) in
      (
        b ∷ more.0,
        more.1 ∙ append_assoc value (b ∷ []) more.0,
        ap (λ (t : Bytes). b ∷ t) more.2,
        (ground arith, more.3),
        more.4,
      )
]

-- `readSOCKS4Field` returns a field exactly when the stream begins with it and a NUL; a field has no
-- NUL and at most `maximum` bytes, and what follows its NUL is left to read.
pub read_socks4_field_iff :
    (maximum : ℕ) (e : Error) (s v rest : Bytes)
    → (read_socks4_field maximum e s ≡ ok (v, rest))
      ↔ ((s ≡ v ++ 0 ∷ rest) × NoZero v × (length v ≤ maximum))
unfolding read_socks4_field
read_socks4_field_iff maximum e s v rest = (
  λ h.
      let p = read_field_loop_parts maximum e [] s v rest (omega arith) h in
      (rw p.1 p.2, rw p.1 p.3, p.4),
  λ p. rw p.0 (read_field_loop_ends maximum e [] v rest p.1 (omega (arith, p.2))),
)
