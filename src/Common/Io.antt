-- ===== src/Common/Io.antt =====
-- Go's byte streams. A reader is the list of the bytes that it still delivers, and then end of file.
-- A writer is what it has taken so far and a list of answers that it gives to the coming calls.
use Prim.Native.Nat.{ℕ, zero, suc, ◌≤◌, ◌<◌, min}
use mathlib.Core.Path.{◌≡◌, refl, sym, ap, ◌∙◌}
use mathlib.Core.Bool.{Bool, true, false}
use mathlib.Core.Option
use mathlib.Core.Option.{Option, none, some}
use mathlib.Core.List.{List, [], ◌∷◌, ◌++◌, append-nil, append_assoc}
use native.Mathlib.Omega.{arith}
use p2p_netcat_go_wrk.Common.Tests.{leb, ◌==◌, if◌then◌else◌}
use p2p_netcat_go_wrk.Common.Lists.{
  Bytes, length, take, drop, length-append, length-take, take-append_length, drop-append_length,
  take-append-drop,
}
use p2p_netcat_go_wrk.Common.Results.{Result, ok, err}

-- `failed n` is an error of the connection itself.
pub data IoError : Type 0 where
  eof unexpected_eof short_write : IoError
  failed : ℕ → IoError

-- `io.ReadFull(reader, buffer)` for a buffer of `n` bytes: the bytes, and what is left to read.
unfoldable pub read_full : ℕ → Bytes → Result IoError (Bytes × Bytes)
read_full zero s = ok ([], s)
read_full (suc n) [] = err eof
read_full (suc n) (b ∷ s) =
    if leb n (length s) then ok (b ∷ take n s, drop n s) else err unexpected_eof

-- `reader.ReadByte()`
unfoldable pub read_byte : Bytes → Result IoError (ℕ × Bytes)
read_byte [] = err eof
read_byte (b ∷ s) = ok (b, s)

-- One answer of a writer: how much it takes at most, and whether it fails.
pub record Answer : Type 0 where
  pub limit : ℕ
  pub failure : Option ℕ

pub record Writer : Type 0 where
  pub out : Bytes
  pub answers : List Answer

-- A writer that takes everything.
abbrev pub plain : Bytes → Writer
plain s = record { out = s; answers = [] }

abbrev finish_write :
    Option ℕ → Bytes → List Answer → Option IoError × Writer → Option IoError × Writer
finish_write (some e) out answers more = (some (failed e), record { out = out; answers = answers })
finish_write none out answers more = more

-- `for len(value) > 0 { count, err := writer.Write(value); ... }`. Each round uses up an answer; a
-- writer with no answers left takes the whole value.
write_loop : Bytes → Bytes → List Answer → Option IoError × Writer
write_loop out [] answers = (none, record { out = out; answers = answers })
write_loop out (b ∷ v) [] = (none, record { out = out ++ (b ∷ v); answers = [] })
write_loop out (b ∷ v) (a ∷ answers) =
    let count = min a.limit (length (b ∷ v)) in
    let out' = out ++ take count (b ∷ v) in
    let more = write_loop out' (drop count (b ∷ v)) answers in
    finish_write a.failure out' answers
      (if count == 0 then (some short_write, record { out = out'; answers = answers }) else more)

unfoldable pub write_full : Bytes → Writer → Option IoError × Writer
unfolding write_loop
write_full v w = write_loop w.out v w.answers

pub read_full-append : (v rest : Bytes) → read_full (length v) (v ++ rest) ≡ ok (v, rest)
unfolding read_full
read_full-append [] rest = refl
read_full-append (b ∷ v) rest =
    ground (arith, length-append v rest, take-append_length v rest, drop-append_length v rest)

-- What a read delivers is the front of the stream, of the length asked for.
pub read_full_parts :
    (n : ℕ) (s v rest : Bytes) → read_full n s ≡ ok (v, rest) → (v ++ rest ≡ s) × (length v ≡ n)
unfolding read_full
read_full_parts zero s v rest h = ground arith
read_full_parts (suc n) [] v rest h = cc
read_full_parts (suc n) (b ∷ s) v rest h = ground (arith, take-append-drop n s, length-take n s)

pub read_full-append_ok :
    (n : ℕ) (s more v rest : Bytes)
    → read_full n s ≡ ok (v, rest)
    → read_full n (s ++ more) ≡ ok (v, rest ++ more)
read_full-append_ok n s more v rest h =
    let (whole, len) = read_full_parts n s v rest h in
    rw (← whole, ← len, append_assoc) (read_full-append v (rest ++ more))

-- A read fails exactly when the stream is too short; the error tells an empty stream from a cut one.
pub read_full_short :
    (n : ℕ) (s : Bytes)
    → length s < n
    → read_full n s ≡ err (if length s == 0 then eof else unexpected_eof)
unfolding read_full
read_full_short zero s h = absurd (omega arith)
read_full_short (suc n) [] h = refl
read_full_short (suc n) (b ∷ s) h = ground arith

pub read_full_long : (n : ℕ) (s : Bytes) → n ≤ length s → read_full n s ≡ ok (take n s, drop n s)
unfolding read_full
read_full_long zero s h = refl
read_full_long (suc n) [] h = absurd (omega arith)
read_full_long (suc n) (b ∷ s) h = ground arith

-- What a write of `v` to a writer that holds `out` has done: it has sent a front part of `v`, and all
-- of `v` if it reports no error.
pub record Sends {E : Type 0} (out v : Bytes) (r : Option E × Writer) : Type 0 where
  pub sent : Bytes
  pub unsent : Bytes
  pub split : sent ++ unsent ≡ v
  pub taken : r.1.out ≡ out ++ sent
  pub complete : r.0 ≡ none → unsent ≡ []

-- A call took the first `k` bytes and the loop stopped there with an error.
Sends-part :
    (k : ℕ) (out v : Bytes) (e : IoError) (answers : List Answer)
    → Sends out v (some e, record { out = out ++ take k v; answers = answers })
Sends-part k out v e answers = record {
  sent = take k v;
  unsent = drop k v;
  split = take-append-drop k v;
  taken = refl;
  complete = λ h. cc;
}

-- A call took the first `k` bytes and the loop went on with the others.
Sends-later :
    (k : ℕ) (out v : Bytes) (r : Option IoError × Writer)
    → Sends (out ++ take k v) (drop k v) r
    → Sends out v r
Sends-later k out v r s = record {
  sent = take k v ++ s.sent;
  unsent = s.unsent;
  split = append_assoc (take k v) s.sent s.unsent ∙ rw s.split (take-append-drop k v);
  taken = s.taken ∙ append_assoc out (take k v) s.sent;
  complete = s.complete;
}

Sends-finish :
    (k : ℕ) (out v : Bytes) (f : Option ℕ) (b : Bool) (answers : List Answer)
    (more : Option IoError × Writer)
    → Sends out v more
    → Sends out v (
        finish_write f (out ++ take k v) answers (
          if b
          then (some short_write, record { out = out ++ take k v; answers = answers })
          else more))
Sends-finish k out v (some e) b answers more s = Sends-part k out v (failed e) answers
Sends-finish k out v none true answers more s = Sends-part k out v short_write answers
Sends-finish k out v none false answers more s = s

write_loop-Sends : (out v : Bytes) (answers : List Answer) → Sends out v (write_loop out v answers)
unfolding write_loop
write_loop-Sends out [] answers = record {
  sent = [];
  unsent = [];
  split = refl;
  taken = sym (append-nil out);
  complete = λ h. refl;
}
write_loop-Sends out (b ∷ v) [] = record {
  sent = b ∷ v;
  unsent = [];
  split = append-nil (b ∷ v);
  taken = refl;
  complete = λ h. refl;
}
write_loop-Sends out (b ∷ v) (a ∷ answers) =
    let k = min a.limit (length (b ∷ v)) in
    Sends-finish k out (b ∷ v) a.failure _ answers _ (
      Sends-later k out (b ∷ v) _
        (write_loop-Sends (out ++ take k (b ∷ v)) (drop k (b ∷ v)) answers))

pub write_full-Sends : (v : Bytes) (w : Writer) → Sends w.out v (write_full v w)
unfolding write_full
write_full-Sends v w = write_loop-Sends w.out v w.answers

pub write_full_ok :
    (v : Bytes) (w : Writer) → (write_full v w).0 ≡ none → (write_full v w).1.out ≡ w.out ++ v
write_full_ok v w h =
    let s = write_full-Sends v w in
    s.taken ∙ ap (λ (t : Bytes). w.out ++ t) (sym (append-nil s.sent) ∙ rw (← s.complete h) s.split)

-- `if err := first; err != nil { return fmt.Errorf(..., err) }`
abbrev pub wrap_error : {E : Type 0} → (IoError → E) → Option IoError × Writer → Option E × Writer
wrap_error f (none, w) = (none, w)
wrap_error f (some e, w) = (some (f e), w)

-- `if err := first; err != nil { return err }; return second`
abbrev pub and_then :
    {E : Type 0} → Option E × Writer → (Writer → Option E × Writer) → Option E × Writer
and_then (none, w) second = second w
and_then (some e, w) second = (some e, w)

pub Sends-wrap_error :
    {E : Type 0} (f : IoError → E) (out v : Bytes) (r : Option IoError × Writer)
    → Sends out v r
    → Sends out v (wrap_error f r)
Sends-wrap_error f out v (none, w) s = record {
  sent = s.sent;
  unsent = s.unsent;
  split = s.split;
  taken = s.taken;
  complete = λ h. s.complete refl;
}
Sends-wrap_error f out v (some e, w) s = record {
  sent = s.sent;
  unsent = s.unsent;
  split = s.split;
  taken = s.taken;
  complete = λ h. cc;
}

pub Sends-and_then :
    {E : Type 0} (out v v' : Bytes) (r : Option E × Writer) (second : Writer → Option E × Writer)
    → Sends out v r
    → ((w : Writer) → Sends w.out v' (second w))
    → Sends out (v ++ v') (and_then r second)
Sends-and_then out v v' (some e, w) second s s' = record {
  sent = s.sent;
  unsent = s.unsent ++ v';
  split = sym (append_assoc s.sent s.unsent v') ∙ ap (λ (t : Bytes). t ++ v') s.split;
  taken = s.taken;
  complete = λ h. cc;
}
Sends-and_then out v v' (none, w) second s s' =
    let all : s.sent ≡ v = sym (append-nil s.sent) ∙ rw (← s.complete refl) s.split in
    let t = s' w in
    record {
      sent = v ++ t.sent;
      unsent = t.unsent;
      split = append_assoc v t.sent t.unsent ∙ ap (λ (u : Bytes). v ++ u) t.split;
      taken =
          t.taken
          ∙ ap (λ (u : Bytes). u ++ t.sent) (s.taken ∙ ap (λ (u : Bytes). out ++ u) all)
          ∙ append_assoc out v t.sent;
      complete = t.complete;
    }

-- One call `writer.Write(value)`, whose count is not looked at.
unfoldable pub write_once : Bytes → Writer → Option IoError × Writer
write_once v w = elim w.answers [
  | [] ↦ (none, record { out = w.out ++ v; answers = [] })
  | a ∷ rest ↦
      (Option.map failed a.failure, record { out = w.out ++ take a.limit v; answers = rest })
]
