-- ===== src/WebRtc/Listener/Invariant.antt =====
-- What holds of a listener after any calls, in any order.
use p2p_netcat_go_wrk.Common.{
  ℕ, ◌≡◌, ◌≢◌, ◌∙◌, sym, ap, subst, refl, Bool, true, false, not, Bool-cases, inl, inr, Option,
  none, some, List, [], ◌==◌, ==_iff, if◌then◌else◌, Bytes, length, get_elem?, modify,
  get_elem?-modify_same, get_elem?-modify_other, length-modify, arith,
}
use p2p_netcat_go_wrk.Common.Text.{bytes_eq}
use p2p_netcat_go_wrk.Common.Maps.{find, delete, find-delete}
use p2p_netcat_go_wrk.WebRtc.Link.{is_some}
use p2p_netcat_go_wrk.WebRtc.Listener.{Entry, Listener, close_peer, close_attached, change}

-- An entry of the map: its link is open and attached to the connection that the entry names, and the
-- timer of the reconnect grace runs exactly while there is none.
abbrev pub IsLive : Entry → Type 0
IsLive e = (e.link.closed ≡ false) × (e.link.peer ≡ e.peer) × (e.timer ≡ not (is_some e.peer))

-- The entry at a place.
pub record Live (entries : List Entry) (id : ℕ) : Type 0 where
  pub entry : Entry
  pub found : get_elem? entries id ≡ some entry
  pub live : IsLive entry

pub record IsSound (l : Listener) : Type 0 where
  pub known : (remote : Bytes) (id : ℕ) → find remote l.streams ≡ some id → Live l.entries id
  pub owner :
      (remote : Bytes) (id : ℕ)
      → find remote l.streams ≡ some id
      → get_elem? l.remotes id ≡ some remote
  pub aligned : length l.remotes ≡ length l.entries
  pub ended : l.closed ≡ true → l.streams ≡ []

pub IsSound-if :
    (b : Bool) (x y : Listener)
    → (b ≡ true → IsSound x)
    → (b ≡ false → IsSound y)
    → IsSound (if b then x else y)
IsSound-if true x y hx hy = hx refl
IsSound-if false x y hx hy = hy refl

pub Live-modify :
    (entries : List Entry) (i id : ℕ) (f : Entry → Entry)
    → ((e : Entry) → get_elem? entries i ≡ some e → IsLive e → IsLive (f e))
    → Live entries id
    → Live (modify i f entries) id
Live-modify entries i id f keeps l = elim (Bool-cases (i == id)) [
  | inl e ↦
      let same = (==_iff i id).0 e in
      subst (λ (k : ℕ). Live (modify i f entries) k) same
        (record {
          entry = f l.entry;
          found = get_elem?-modify_same i f entries l.entry (rw same l.found);
          live = keeps l.entry (rw same l.found) l.live;
        })
  | inr e ↦
      let apart : i ≢ id = ground arith in
      record {
        entry = l.entry;
        found = get_elem?-modify_other i id f entries apart ∙ l.found;
        live = l.live;
      }
]

Live-modify_other :
    (entries : List Entry) (i id : ℕ) (f : Entry → Entry)
    → i ≢ id
    → Live entries id
    → Live (modify i f entries) id
Live-modify_other entries i id f apart l = record {
  entry = l.entry;
  found = get_elem?-modify_other i id f entries apart ∙ l.found;
  live = l.live;
}

-- A change of an entry that keeps it live.
pub change-IsSound :
    (i : ℕ) (f : Entry → Entry) (l : Listener)
    → ((e : Entry) → get_elem? l.entries i ≡ some e → IsLive e → IsLive (f e))
    → IsSound l
    → IsSound (change i f l)
change-IsSound i f l keeps s = record {
  known = λ remote id h. Live-modify l.entries i id f keeps (s.known remote id h);
  owner = s.owner;
  aligned = s.aligned ∙ sym (length-modify i f l.entries);
  ended = s.ended;
}

-- Where only connections and goroutines differ.
pub same-IsSound :
    (l l' : Listener)
    → l'.closed ≡ l.closed
    → l'.streams ≡ l.streams
    → l'.entries ≡ l.entries
    → l'.remotes ≡ l.remotes
    → IsSound l
    → IsSound l'
same-IsSound l l' c m e r s = record {
  known = λ remote id h. rw e (s.known remote id (rw m at h));
  owner = λ remote id h. rw r (s.owner remote id (rw m at h));
  aligned = rw (r, e) s.aligned;
  ended = λ h. m ∙ s.ended (sym c ∙ h);
}

pub close_attached-IsSound :
    (peer : Option ℕ) (l : Listener) → IsSound l → IsSound (close_attached peer l)
close_attached-IsSound none l s = s
close_attached-IsSound (some peer) l s = same-IsSound l (close_peer peer l) refl refl refl refl s

-- An entry that no remote peer of the map refers to may change in any way.
pub change_forgotten :
    (i : ℕ) (f : Entry → Entry) (l : Listener)
    → ((remote : Bytes) → find remote l.streams ≢ some i)
    → IsSound l
    → IsSound (change i f l)
change_forgotten i f l gone s = record {
  known = λ remote id h.
      Live-modify_other l.entries i id f (λ e. gone remote (h ∙ ap (λ (k : ℕ). some k) (sym e)))
        (s.known remote id h);
  owner = s.owner;
  aligned = s.aligned ∙ sym (length-modify i f l.entries);
  ended = s.ended;
}

pub find-delete-some :
    (name key : Bytes) (m : List (Bytes × ℕ)) (id : ℕ)
    → find name (delete key m) ≡ some id
    → (bytes_eq key name ≡ false) × (find name m ≡ some id)
find-delete-some name key m id h = elim (Bool-cases (bytes_eq key name)) [
  | inl e ↦ ground (arith, e, find-delete name key m)
  | inr e ↦ (e, ground (arith, e, find-delete name key m))
]

-- A remote peer leaves the map.
pub delete-IsSound :
    (remote : Bytes) (l : Listener)
    → IsSound l
    → IsSound (record l { streams = delete remote l.streams })
unfolding delete
delete-IsSound remote l s = record {
  known = λ r id h. s.known r id (find-delete-some r remote l.streams id h).1;
  owner = λ r id h. s.owner r id (find-delete-some r remote l.streams id h).1;
  aligned = s.aligned;
  ended = λ h. rw (s.ended h) refl;
}
