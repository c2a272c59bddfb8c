-- ===== src/Daemon/Handles.antt =====
-- Starting a tunnel, and tearing one down, leaves the map of the handles as it is.
use p2p_netcat_go_wrk.Common.{
  ℕ, ◌≡◌, ◌∙◌, refl, inl, inr, Option, none, some, Bytes, Result, ok, err, Option-cases, arith,
}
use p2p_netcat_go_wrk.TunnelConfig.{Tunnel, server, client, Mode}
use p2p_netcat_go_wrk.Daemon.{
  Daemon, Handle, Outside, StartError, acquire, serve, start_server, start_client, opened,
  client_tests, start, start_as, start_with, remove_handler, close_listener, release_lock,
  tear_down,
}

acquire-handles :
    (out : Outside) (service : ℕ) (d : Daemon) → (acquire out service d).1.handles ≡ d.handles
unfolding acquire
acquire-handles out service d = elim (Option-cases (out.lock_file service)) [
  | inl free ↦ ground arith
  | inr (e, failed) ↦ ground arith
]

serve-handles :
    (t : Tunnel) (token : Option Bytes) (r : Result StartError ℕ × Daemon)
    → (serve t token r).1.handles ≡ r.1.handles
serve-handles t token (err e, d) = refl
serve-handles t token (ok service, d) = refl

opened-handles :
    (r : Result StartError (Unit {0})) (d : Daemon) → (opened r d).1.handles ≡ d.handles
opened-handles (err e) d = refl
opened-handles (ok u) d = refl

start_as-handles :
    (out : Outside) (t : Tunnel) (m : Mode) (token : Option Bytes) (d : Daemon)
    → (start_as out t m token d).1.handles ≡ d.handles
unfolding start_server start_client
start_as-handles out t server token d =
    serve-handles t token (acquire out t.logical_port d) ∙ acquire-handles out t.logical_port d
start_as-handles out t client token d = opened-handles (client_tests out t) d
start_as-handles out t Mode.unset token d = opened-handles (client_tests out t) d
start_as-handles out t (Mode.unknown m) token d = opened-handles (client_tests out t) d

start_with-handles :
    (out : Outside) (t : Tunnel) (token : Result Bytes (Option Bytes)) (d : Daemon)
    → (start_with out t token d).1.handles ≡ d.handles
start_with-handles out t (err e) d = refl
start_with-handles out t (ok token) d = start_as-handles out t t.mode token d

pub start-handles :
    (out : Outside) (t : Tunnel) (d : Daemon) → (start out t d).1.handles ≡ d.handles
unfolding start
start-handles out t d = start_with-handles out t (out.token_of t) d

pub tear_down-handles : (h : Option Handle) (d : Daemon) → (tear_down h d).handles ≡ d.handles
tear_down-handles none d = refl
tear_down-handles (some h) d = parts h.lock h.closer h.proto
  where
    parts :
        (lock : Option ℕ) (closer : Option ℕ) (proto : Option _)
        → (release_lock lock (close_listener closer (remove_handler proto d))).handles ≡ d.handles
    parts none none none = refl
    parts none none (some p) = refl
    parts none (some c) none = refl
    parts none (some c) (some p) = refl
    parts (some l) none none = refl
    parts (some l) none (some p) = refl
    parts (some l) (some c) none = refl
    parts (some l) (some c) (some p) = refl
