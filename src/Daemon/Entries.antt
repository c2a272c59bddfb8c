-- ===== src/Daemon/Entries.antt =====
-- The names that have a handle, through the two loops of a reload.
use p2p_netcat_go_wrk.Common.{
  ◌≡◌, ◌∙◌, sym, ap, refl, Bool, true, false, ◌&&◌, ◌||◌, not, Bool-cases, inl, inr, Option, none,
  some, List, [], ◌∷◌, Bytes, Result, ok, err, arith,
}
use p2p_netcat_go_wrk.Common.Maps.{find, delete, find-delete_other, find-delete_same}
use p2p_netcat_go_wrk.Common.Text.{bytes_eq, bytes_eq→eq}
use p2p_netcat_go_wrk.TunnelConfig.{Tunnel}
use p2p_netcat_go_wrk.Daemon.{
  Daemon, Handle, Outside, Error, StartError, start, stop, keep_started, or_then, is_unchanged,
  stop_changed_one, stop_changed, start_changed_one, start_changed,
}
use p2p_netcat_go_wrk.Daemon.Handles.{start-handles, tear_down-handles}

abbrev pub is_some {ℓ} : {A : Type ℓ} → Option A → Bool
is_some none = false
is_some (some a) = true

abbrev pub has_entry {ℓ} : {A : Type ℓ} → Bytes → List (Bytes × A) → Bool
has_entry name entries = is_some (find name entries)

abbrev pub visits : List Bytes → Bytes → Bool
visits [] name = false
visits (other ∷ names) name = bytes_eq other name || visits names name

pub delete_entry :
    {A : Type 0} (name other : Bytes) (entries : List (Bytes × A))
    → has_entry name (delete other entries) ≡ (has_entry name entries && not (bytes_eq other name))
delete_entry name other entries = elim (Bool-cases (bytes_eq other name)) [
  | inl e ↦
      let same = bytes_eq→eq other name e in
      let gone : find name (delete other entries) ≡ none =
        rw same (find-delete_same name entries) in
      let no_entry : has_entry name (delete other entries) ≡ false = rw gone in ground arith
  | inr apart ↦
      let kept = find-delete_other name other entries apart in
      let same_entry : has_entry name (delete other entries) ≡ has_entry name entries = rw kept in
      ground arith
]

stop_entry :
    (name other : Bytes) (d : Daemon)
    → has_entry name (stop other d).handles
      ≡ (has_entry name d.handles && not (bytes_eq other name))
unfolding stop
stop_entry name other d =
    ap (λ (l : List (Bytes × Handle)). has_entry name l)
      (tear_down-handles (find other d.handles) (record d { handles = delete other d.handles }))
    ∙ delete_entry name other d.handles

-- What the two configurations say of one name.
abbrev pub to_stop : Option Tunnel → Option Tunnel → Bool
to_stop old new = is_some old && not (is_unchanged old new)

abbrev pub to_start : Option Tunnel → Option Tunnel → Bool
to_start old new = is_some new && not (is_unchanged old new)

stop_changed_one-entry :
    (name other : Bytes) (old new : Option Tunnel) (d : Daemon)
    → has_entry name (stop_changed_one old new other d).handles
      ≡ (has_entry name d.handles && not (bytes_eq other name && to_stop old new))
stop_changed_one-entry name other none new d = ground arith
stop_changed_one-entry name other (some t) new d =
    let stopped = stop_entry name other d in
    elim (Bool-cases (is_unchanged (some t) new)) [
      | inl u ↦ rw u (ground arith)
      | inr u ↦ rw u (ground (arith, stopped))
    ]

same_name :
    (name other : Bytes) (f : Option Tunnel → Option Tunnel → Bool)
    (old new : List (Bytes × Tunnel))
    → (bytes_eq other name && f (find other old) (find other new))
      ≡ (bytes_eq other name && f (find name old) (find name new))
same_name name other f old new = elim (Bool-cases (bytes_eq other name)) [
  | inl e ↦ rw (bytes_eq→eq other name e)
  | inr e ↦ rw e
]

fewer :
    (h h' a v k : Bool)
    → h' ≡ (h && not (a && k))
    → (h' && not (v && k)) ≡ (h && not ((a || v) && k))
fewer h h' true v true e = ground arith
fewer h h' true v false e = ground arith
fewer h h' false v k e = ground arith

more : (h h' a v k : Bool) → h' ≡ (h || (a && k)) → (h' || (v && k)) ≡ (h || ((a || v) && k))
more h h' true v true e = ground arith
more h h' true v false e = ground arith
more h h' false v k e = ground arith

pub stop_changed-entry :
    (name : Bytes) (old new : List (Bytes × Tunnel)) (names : List Bytes) (d : Daemon)
    → has_entry name (stop_changed old new names d).handles ≡ (
        has_entry name d.handles
        && not (visits names name && to_stop (find name old) (find name new)))
stop_changed-entry name old new [] d = ground arith
stop_changed-entry name old new (other ∷ names) d =
    let d' = stop_changed_one (find other old) (find other new) other d in
    let rest = stop_changed-entry name old new names d' in
    let first = stop_changed_one-entry name other (find other old) (find other new) d in
    let same = same_name name other to_stop old new in
    let first' = first ∙ ap (λ (b : Bool). has_entry name d.handles && not b) same in
    rest
    ∙ fewer (has_entry name d.handles) (has_entry name d'.handles) (bytes_eq other name)
        (visits names name) (to_stop (find name old) (find name new)) first'

pub keep_started-entry :
    (name other : Bytes) (r : Result StartError Handle × Daemon)
    → (keep_started other r).0 ≡ none
    → has_entry name (keep_started other r).1.handles
      ≡ (has_entry name r.1.handles || bytes_eq other name)
unfolding find
keep_started-entry name other (err e, d) h = cc
keep_started-entry name other (ok handle, d) h = elim (Bool-cases (bytes_eq other name)) [
  | inl e ↦ rw e (ground arith)
  | inr e ↦ rw e (delete_entry name other d.handles ∙ ground (arith, e))
]

start_changed_one-entry :
    (out : Outside) (name other : Bytes) (old new : Option Tunnel) (d : Daemon)
    → (start_changed_one out old new other d).0 ≡ none
    → has_entry name (start_changed_one out old new other d).1.handles
      ≡ (has_entry name d.handles || (bytes_eq other name && to_start old new))
start_changed_one-entry out name other old none d h = ground arith
start_changed_one-entry out name other old (some t) d h =
    elim (Bool-cases (is_unchanged old (some t))) [
      | inl u ↦ rw u (ground arith)
      | inr u ↦
          let started = keep_started-entry name other (start out t d) (rw u at h) in
          let before =
            ap (λ (l : List (Bytes × Handle)). has_entry name l) (start-handles out t d) in
          rw u (started ∙ ground (arith, before))
    ]

pub or_then-none :
    (r : Option Error × Daemon) (next : Daemon → Option Error × Daemon)
    → (or_then r next).0 ≡ none
    → (r.0 ≡ none) × (or_then r next ≡ next r.1)
or_then-none (some e, d) next h = cc
or_then-none (none, d) next h = (refl, refl)

pub start_changed-entry :
    (out : Outside) (name : Bytes) (old new : List (Bytes × Tunnel)) (names : List Bytes)
    (d : Daemon)
    → (start_changed out old new names d).0 ≡ none
    → has_entry name (start_changed out old new names d).1.handles ≡ (
        has_entry name d.handles || (visits names name && to_start (find name old) (find name new)))
unfolding start_changed
start_changed-entry out name old new [] d h = ground arith
start_changed-entry out name old new (other ∷ names) d h =
    let one = start_changed_one out (find other old) (find other new) other d in
    let (first_ok, e) = or_then-none one (start_changed out old new names) h in
    let rest_ok = ap (λ (r : Option Error × Daemon). r.0) (sym e) ∙ h in
    let rest = start_changed-entry out name old new names one.1 rest_ok in
    let first =
      start_changed_one-entry out name other (find other old) (find other new) d first_ok in
    let same = same_name name other to_start old new in
    let first' = first ∙ ap (λ (b : Bool). has_entry name d.handles || b) same in
    ap (λ (r : Option Error × Daemon). has_entry name r.1.handles) e
    ∙ rest
    ∙ more (has_entry name d.handles) (has_entry name one.1.handles) (bytes_eq other name)
        (visits names name) (to_start (find name old) (find name new)) first'

pub settled :
    (old new : Option Tunnel) (h vo vn : Bool)
    → h ≡ is_some old
    → (is_some old ≡ true → vo ≡ true)
    → (is_some new ≡ true → vn ≡ true)
    → ((h && not (vo && to_stop old new)) || (vn && to_start old new)) ≡ is_some new
settled none none h vo vn e o n = ground arith
settled none (some t) h vo vn e o n = let all = n refl in ground arith
settled (some s) none h vo vn e o n = let all = o refl in ground arith
settled (some s) (some t) h vo vn e o n =
    let all = n refl in
    let all_old = o refl in
    elim (Bool-cases (is_unchanged (some s) (some t))) [
      | inl u ↦ ground arith
      | inr u ↦ ground arith
    ]
