-- ===== src/WebRtc/Stream/Order.antt =====
-- The reader of a stream gets the bytes that came in, in order.
use p2p_netcat_go_wrk.Common.{
  ℕ, ◌+◌, ◌-◌, ◌≤◌, ◌≡◌, refl, sym, ap, ◌∙◌, subst, Bool, true, false, ◌||◌, ltb, ◌==◌, List, [],
  ◌∷◌, ◌++◌, append_assoc, append-nil, Bytes, length, take, drop, length-append, length-take,
  length-drop, arith, Bool-cases, inl, inr, Option, none, some,
}
use p2p_netcat_go_wrk.WebRtc.Wire.{Frame, frame_data, frame_control}
use p2p_netcat_go_wrk.WebRtc.Stream.{
  Stream, Peer, Error, max_read_queue_bytes, new_stream, read, read_from, advance, write,
  close_write, close, reset, reconnected, keep_alive, read_nothing, receive, receive_control,
  receive_data, fail, queue_exceeded,
}
use p2p_netcat_go_wrk.WebRtc.Stream.Steps.{
  bytes_of, accepts, accepted, Step, Run, reads, writes, closes_write, closes, resets, receives,
  reconnects, ticks, done, step, SameQueue, fail-SameQueue, write-SameQueue, close_write-SameQueue,
  close-SameQueue, reset-SameQueue, receive_control-SameQueue, reconnected-SameQueue,
  keep_alive-SameQueue,
}

abbrev pub concat : List Bytes → Bytes
concat [] = []
concat (c ∷ cs) = c ++ concat cs

-- What is left to read.
abbrev pub unread : Stream → Bytes
unread s = drop s.read_offset (concat s.read_queue)

abbrev pub Fits : ℕ → List Bytes → Type 0
Fits offset [] = offset ≡ 0
Fits offset (c ∷ cs) = offset ≤ length c

-- The count of queued bytes is right and within the limit, and the offset lies in the first chunk.
abbrev pub IsSound : Stream → Type 0
IsSound s =
    (s.read_queued ≡ length (concat s.read_queue))
    × (s.read_queued ≤ max_read_queue_bytes)
    × Fits s.read_offset s.read_queue

drop-append : (n : ℕ) (xs ys : Bytes) → n ≤ length xs → drop n (xs ++ ys) ≡ drop n xs ++ ys
drop-append ℕ.zero xs ys h = refl
drop-append (ℕ.suc n) [] ys h = ground arith
drop-append (ℕ.suc n) (x ∷ xs) ys h = drop-append n xs ys (omega arith)

drop_nil : (m : ℕ) → drop {A = ℕ} m [] ≡ []
drop_nil ℕ.zero = refl
drop_nil (ℕ.suc m) = refl

drop-drop : (m n : ℕ) (xs : Bytes) → drop m (drop n xs) ≡ drop (n + m) xs
drop-drop m ℕ.zero xs = ap (λ (k : ℕ). drop k xs) (omega arith)
drop-drop m (ℕ.suc n) [] = drop_nil m ∙ sym (drop_nil (ℕ.suc n + m))
drop-drop m (ℕ.suc n) (x ∷ xs) =
    let e : ℕ.suc (n + m) ≡ ℕ.suc n + m = omega arith in
    drop-drop m n xs ∙ ap (λ (k : ℕ). drop k (x ∷ xs)) e

drop_all : (xs ys : Bytes) → drop (length xs) (xs ++ ys) ≡ ys
drop_all [] ys = refl
drop_all (x ∷ xs) ys = drop_all xs ys

split_front : (n : ℕ) (xs ys : Bytes) → xs ++ ys ≡ take n xs ++ drop (length (take n xs)) (xs ++ ys)
split_front ℕ.zero xs ys = refl
split_front (ℕ.suc n) [] ys = refl
split_front (ℕ.suc n) (x ∷ xs) ys = ap (λ (t : Bytes). x ∷ t) (split_front n xs ys)

-- Sound, with nothing lost between what was unread and what is given and still unread.
abbrev pub Keeps : Stream → Bytes → Bytes → Stream → Type 0
Keeps s taken given s' = IsSound s' × (unread s ++ taken ≡ given ++ unread s')

pub SameQueue-Keeps : (s s' : Stream) → SameQueue s s' → IsSound s → Keeps s [] [] s'
SameQueue-Keeps s s' (q, n, o) sound = (rw (q, n, o) sound, rw (q, o, append-nil))

Fits-zero : (q : List Bytes) → Fits 0 q
Fits-zero [] = refl
Fits-zero (c ∷ cs) = omega arith

advance-unread :
    (offset : ℕ) (chunk : Bytes) (rest : List Bytes) (s : Stream)
    → s.read_queue ≡ chunk ∷ rest
    → IsSound s
    → offset ≤ length chunk
    → IsSound (advance offset chunk rest s)
      × (drop offset (chunk ++ concat rest) ≡ unread (advance offset chunk rest s))
advance-unread offset chunk rest s q (n, limit, _) h =
    let n' : s.read_queued ≡ length (chunk ++ concat rest) = rw q at n in
    elim (Bool-cases (offset == length chunk)) [
      | inl end ↦
          let at_end : offset ≡ length chunk = ground arith in
          let left : s.read_queued - length chunk ≡ length (concat rest) =
            omega (arith, length-append chunk (concat rest)) in
          (
            rw end (left, omega arith, Fits-zero rest),
            rw (end, at_end) (drop_all chunk (concat rest)),
          )
      | inr inside ↦ (rw (inside, q) (n', limit, h), rw (inside, q))
    ]

nothing_read : (e : Option Error) (closed : Bool) → bytes_of (read_nothing e closed) ≡ []
nothing_read (some e) closed = refl
nothing_read none true = refl
nothing_read none false = refl

read_from-Keeps :
    (size : ℕ) (q : List Bytes) (s : Stream)
    → s.read_queue ≡ q
    → IsSound s
    → Keeps s [] (bytes_of (read_from size q s).0) (read_from size q s).1
read_from-Keeps size [] s q sound =
    (sound, ground (arith, append-nil (unread s), nothing_read s.read_err s.closed_read))
read_from-Keeps size (chunk ∷ rest) s q sound =
    let here : s.read_offset ≤ length chunk = (rw q at sound).2 in
    let bytes = take size (drop s.read_offset chunk) in
    let within : s.read_offset + length bytes ≤ length chunk =
      omega (arith, length-take size (drop s.read_offset chunk), length-drop s.read_offset chunk) in
    let (sound', e) = advance-unread (s.read_offset + length bytes) chunk rest s q sound within in
    let front = split_front size (drop s.read_offset chunk) (concat rest) in
    let whole = drop-append s.read_offset chunk (concat rest) here in
    let onward = drop-drop (length bytes) s.read_offset (chunk ++ concat rest) in
    let start : unread s ≡ drop s.read_offset chunk ++ concat rest = rw q whole in
    let left = ap (λ (t : Bytes). drop (length bytes) t) (sym whole) ∙ onward ∙ e in
    (sound', append-nil (unread s) ∙ start ∙ front ∙ ap (λ (t : Bytes). bytes ++ t) left)

Fits-more : (offset : ℕ) (q : List Bytes) (c : Bytes) → Fits offset q → Fits offset (q ++ c ∷ [])
Fits-more offset [] c h = ground arith
Fits-more offset (d ∷ q) c h = h

concat_more : (q : List Bytes) (c : Bytes) → concat (q ++ c ∷ []) ≡ concat q ++ c
concat_more [] c = append-nil c
concat_more (d ∷ q) c =
    ap (λ (t : Bytes). d ++ t) (concat_more q c) ∙ sym (append_assoc d (concat q) c)

Fits-length : (offset : ℕ) (q : List Bytes) → Fits offset q → offset ≤ length (concat q)
Fits-length offset [] h = omega arith
Fits-length offset (c ∷ q) h = omega (arith, length-append c (concat q))

add_chunk :
    (s : Stream) (payload : Bytes)
    → IsSound s
    → s.read_queued + length payload ≤ max_read_queue_bytes
    → Keeps s payload [] (record s {
      read_queue = s.read_queue ++ payload ∷ [];
      read_queued = s.read_queued + length payload;
    })
add_chunk s payload (n, limit, fits) room =
    let e = concat_more s.read_queue payload in
    let n' : s.read_queued + length payload ≡ length (concat s.read_queue ++ payload) =
      omega (arith, length-append (concat s.read_queue) payload) in
    (
      (rw e n', room, Fits-more s.read_offset s.read_queue payload fits),
      rw (
        e,
        drop-append s.read_offset (concat s.read_queue) payload
            (Fits-length s.read_offset s.read_queue fits),
      ),
    )

receive_data-Keeps :
    (f : Frame) (s : Stream)
    → (f.kind == frame_data) ≡ true
    → IsSound s
    → Keeps s (accepted f s) [] (receive_data f.payload s).1
receive_data-Keeps f s is_data sound = elim (Bool-cases (s.closed_read || s.closed)) [
  | inl shut ↦
      let refused : accepts f s ≡ false = ground arith in
      rw (refused, shut) (SameQueue-Keeps s s (refl, refl, refl) sound)
  | inr open_ ↦ elim (Bool-cases (ltb (max_read_queue_bytes - s.read_queued) (length f.payload))) [
    | inl long ↦
        let refused : accepts f s ≡ false = ground arith in
        rw (refused, open_, long)
          (SameQueue-Keeps s (fail queue_exceeded s) (fail-SameQueue queue_exceeded s) sound)
    | inr short ↦
        let taken : accepts f s ≡ true = ground arith in
        rw (taken, open_, short) (add_chunk s f.payload sound (ground arith))
  ]
]

receive-Keeps :
    (p : Peer) (f : Frame) (s : Stream) → IsSound s → Keeps s (accepted f s) [] (receive p f s).1
unfolding receive
receive-Keeps p f s sound = elim (Bool-cases (f.kind == frame_data)) [
  | inl is_data ↦
      let e : receive p f s ≡ receive_data f.payload s = rw is_data in
      subst (λ (r : Option Error × Stream). Keeps s (accepted f s) [] r.1) (sym e)
        (receive_data-Keeps f s is_data sound)
  | inr other ↦ elim (Bool-cases (f.kind == frame_control)) [
    | inl text ↦
        rw (other, text)
          (SameQueue-Keeps s (receive_control p f.payload s)
            (receive_control-SameQueue p f.payload s) sound)
    | inr bad ↦ rw (other, bad) (SameQueue-Keeps s s (refl, refl, refl) sound)
  ]
]

pub Step-Keeps :
    (s : Stream) (taken given : Bytes) (s' : Stream)
    → Step s taken given s'
    → IsSound s
    → Keeps s taken given s'
unfolding read
Step-Keeps _ _ _ _ (reads size s) sound = read_from-Keeps size s.read_queue s refl sound
Step-Keeps _ _ _ _ (writes p payload s) sound =
    SameQueue-Keeps s (write p payload s).1 (write-SameQueue p payload s) sound
Step-Keeps _ _ _ _ (closes_write p s) sound =
    SameQueue-Keeps s (close_write p s).1 (close_write-SameQueue p s) sound
Step-Keeps _ _ _ _ (closes p s) sound = SameQueue-Keeps s (close p s).1 (close-SameQueue p s) sound
Step-Keeps _ _ _ _ (resets p s) sound = SameQueue-Keeps s (reset p s).1 (reset-SameQueue p s) sound
Step-Keeps _ _ _ _ (receives p f s) sound = receive-Keeps p f s sound
Step-Keeps _ _ _ _ (reconnects p s) sound =
    SameQueue-Keeps s (reconnected p s).1 (reconnected-SameQueue p s) sound
Step-Keeps _ _ _ _ (ticks p s) sound =
    SameQueue-Keeps s (keep_alive p s) (keep_alive-SameQueue p s) sound

together :
    (a b c x y z w : Bytes) → a ++ x ≡ y ++ b → b ++ z ≡ w ++ c → a ++ (x ++ z) ≡ (y ++ w) ++ c
together a b c x y z w h h' =
    sym (append_assoc a x z)
    ∙ ap (λ (t : Bytes). t ++ z) h
    ∙ append_assoc y b z
    ∙ ap (λ (t : Bytes). y ++ t) h'
    ∙ sym (append_assoc y w c)

Run-Keeps :
    (s : Stream) (taken given : Bytes) (s' : Stream)
    → Run s taken given s'
    → IsSound s
    → Keeps s taken given s'
Run-Keeps _ _ _ _ (done s) sound = (sound, append-nil (unread s))
Run-Keeps _ _ _ _ (step s taken given s' more_taken more_given s'' first rest) sound =
    let (sound', e) = Step-Keeps s taken given s' first sound in
    let (sound'', e') = Run-Keeps s' more_taken more_given s'' rest sound' in
    (sound'', together (unread s) (unread s') (unread s'') taken given more_taken more_given e e')

-- In every run of a stream, whatever the sizes of the frames and of the reads, and whatever else
-- happens between them: the bytes that came in are those that the reader was given, followed by those
-- that are still queued for it; and what is queued never exceeds 1 MiB.
pub Run-in_order :
    (taken given : Bytes) (s : Stream)
    → Run new_stream taken given s
    → (taken ≡ given ++ unread s) × (length (unread s) ≤ max_read_queue_bytes)
unfolding new_stream
Run-in_order taken given s run =
    let ((n, limit, fits), e) = Run-Keeps new_stream taken given s run (refl, omega arith, refl) in
    (e, omega (arith, length-drop s.read_offset (concat s.read_queue)))
