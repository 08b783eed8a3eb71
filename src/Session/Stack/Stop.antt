-- ===== src/Session/Stack/Stop.antt =====
-- internal/session/session.go: `Stop`, and what `Start` and `Stop` come to together. The final evidence pass
-- is an argument.
use mathlib.Core.List.{reverse, reverse_aux, reverse_aux-eq}
use interviews.Base.{
  ℕ, ◌≡◌, refl, sym, ap, ◌∙◌, subst, ◌⊎◌, inl, inr, Bool, true, List, [], ◌∷◌, ◌++◌, Memᴰ, map,
  Option, none, some, Str, codes, ok, if_rule, if◌then◌else◌, mem-append_right,
}
use interviews.Session.Stack.Types.{
  Proc, Event, launched, signalled, found_dead, ran, Info, StartOptions, Host, Desk, Step, tmux_cmd,
  run_tmux, logged,
}
use interviews.Session.Stack.Launch.{kill_session}
use interviews.Session.Stack.Start.{Setup, live_pids, start}
use interviews.Session.Stack.Start.Idle.{IsIdle}
use interviews.Session.Stack.Start.Outcomes.{start-IsFiled}

abbrev pub socket_of : Option Info → Str
socket_of none = []
socket_of (some info) = info.tmux_socket

some-inj : (a b : ℕ) → some a ≡ some b → a ≡ b
some-inj a b h = cc

proc_ext : (p : Proc) (n : Str) (k : ℕ) → p.name ≡ n → p.pid ≡ k → p ≡ record { name = n; pid = k }
proc_ext p n k a b = cc

-- A pid on file whose process runs is among the live ones.
pub live_pids-mem :
    (alive : ℕ → Bool) (pids : List (Str × Option ℕ)) (p : Proc)
    → Memᴰ (p.name, some p.pid) pids
    → alive p.pid ≡ true
    → Memᴰ p (live_pids alive pids)
unfolding live_pids
live_pids-mem alive [] p m e = elim m [ ]
live_pids-mem alive ((n, none) ∷ pids) p (Memᴰ.head q) e = cc
live_pids-mem alive ((n, none) ∷ pids) p (Memᴰ.tail m) e = live_pids-mem alive pids p m e
live_pids-mem alive ((n, some k) ∷ pids) p (Memᴰ.head q) e =
    let same : p ≡ record { name = n; pid = k } =
      proc_ext p n k (ap (λ (x : Str × Option ℕ). x.0) q)
        (some-inj p.pid k (ap (λ (x : Str × Option ℕ). x.1) q)) in
    rw (ap alive (sym (ap (λ (x : Proc). x.pid) same)) ∙ e) (Memᴰ.head same)
live_pids-mem alive ((n, some k) ∷ pids) p (Memᴰ.tail m) e =
    if_rule (Memᴰ p) (alive k) _ _ (λ _. Memᴰ.tail (live_pids-mem alive pids p m e))
      (λ _. live_pids-mem alive pids p m e)

module _ {W : Type 0} (h : Host W) where
  -- the signals of `Stop`
  unfoldable pub signal_procs : List Proc → Desk W → Desk W
  signal_procs [] m = m
  signal_procs (p ∷ live) m =
      let (good, w) = h.signal p.pid m.world in
      signal_procs live (logged (signalled p) (record m { world = w }))

  -- what is left of the pidfiles and of the candidate's kubeconfig
  unfoldable pub sweep : Desk W → Desk W
  sweep m =
      let (good, w) = h.remove_pids m.world in
      let w' = h.drop_kubeconfig w in
      if good then record m { world = w'; pids = [] } else record m { world = w' }

  -- `Stop` up to the evidence
  unfoldable pub stop_session : Str → Desk W → Desk W
  unfolding signal_procs sweep kill_session live_pids
  stop_session name m =
      kill_session h name (socket_of m.info)
        (sweep (signal_procs (live_pids (λ pid. h.alive pid m.world) m.pids) m))

  -- `Stop`
  unfoldable pub stop : Str → Step W Unit → Step W Unit
  unfolding stop_session
  stop name evidence m = evidence (stop_session name m)

  signal_procs-log :
      (live : List Proc) (m : Desk W)
      → (signal_procs live m).log ≡ reverse_aux (map signalled live) m.log
  unfolding signal_procs
  signal_procs-log [] m = refl
  signal_procs-log (p ∷ live) m =
      let (good, w) = h.signal p.pid m.world in
      signal_procs-log live (logged (signalled p) (record m { world = w }))

  sweep-log : (m : Desk W) → (sweep m).log ≡ m.log
  unfolding sweep
  sweep-log m =
      if_rule (λ (d : Desk W). d.log ≡ m.log) ((h.remove_pids m.world).0) _ _ (λ e. refl)
        (λ e. refl)

  -- the command that ends the tmux session of the desk's record
  abbrev pub kill_command : Str → Desk W → Str × List Str
  kill_command name m =
      tmux_cmd (record { socket = socket_of m.info; user = [] })
        (codes "kill-session" ∷ codes "-t" ∷ name ∷ [])

  -- `Stop` sends its signals, in the order of the pidfiles, to the processes on file that run when it begins
  -- and to no other, and then it kills the tmux session on the socket of the record.
  pub stop_session-log :
      (name : Str) (m : Desk W)
      → (stop_session name m).log
        ≡ ran (kill_command name m).0 (kill_command name m).1
          ∷ (reverse (map signalled (live_pids (λ pid. h.alive pid m.world) m.pids)) ++ m.log)
  unfolding stop_session kill_session run_tmux
  stop_session-log name m =
      let live = live_pids (λ pid. h.alive pid m.world) m.pids in
      let (bin, args) = kill_command name m in
      ap (λ l. ran bin args ∷ l)
        (sweep-log (signal_procs live m)
          ∙ signal_procs-log live m
          ∙ reverse_aux-eq (map signalled live) m.log)

  reverse_aux-keeps : (e : Event) (l r : List Event) → Memᴰ e r → Memᴰ e (reverse_aux l r)
  reverse_aux-keeps e [] r i = i
  reverse_aux-keeps e (x ∷ l) r i = reverse_aux-keeps e l (x ∷ r) (Memᴰ.tail i)

  signalled-mem :
      (p : Proc) (live : List Proc) (r : List Event)
      → Memᴰ p live
      → Memᴰ (signalled p) (reverse_aux (map signalled live) r)
  signalled-mem p [] r i = elim i [ ]
  signalled-mem p (q ∷ live) r (Memᴰ.head e) =
      reverse_aux-keeps (signalled p) (map signalled live) (signalled q ∷ r)
        (Memᴰ.head (ap signalled e))
  signalled-mem p (q ∷ live) r (Memᴰ.tail i) = signalled-mem p live (signalled q ∷ r) i

  stop_session-keeps :
      (name : Str) (e : Event) (m : Desk W) → Memᴰ e m.log → Memᴰ e (stop_session name m).log
  stop_session-keeps name e m i = rw (stop_session-log name m) (
      Memᴰ.tail (
        mem-append_right (reverse (map signalled (live_pids (λ pid. h.alive pid m.world) m.pids)))
          i))

  stop_session-signals :
      (name : Str) (m : Desk W) (p : Proc)
      → Memᴰ (p.name, some p.pid) m.pids
      → h.alive p.pid m.world ≡ true
      → Memᴰ (signalled p) (stop_session name m).log
  stop_session-signals name m p i e =
      let live = live_pids (λ pid. h.alive pid m.world) m.pids in
      rw (stop_session-log name m) (
        Memᴰ.tail (
          subst (Memᴰ (signalled p)) (reverse_aux-eq (map signalled live) m.log)
            (signalled-mem p live m.log (live_pids-mem (λ pid. h.alive pid m.world) m.pids p i e))))

  -- A process that a successful `Start` launched, on a desk whose log had launched nothing, and that still runs
  -- when `Stop` begins right after it, is sent a signal by `Stop`, unless `Start` saw it gone or it is the
  -- forwarder of the app.
  pub start-stop :
      (s : Setup) (opts : StartOptions) (m : Desk W) (info : Info)
      → IsIdle m
      → (start h s opts m).0 ≡ ok info
      → (p : Proc) → Memᴰ (launched p) (start h s opts m).1.log
      → h.alive p.pid (start h s opts m).1.world ≡ true
      → Memᴰ (signalled p) (stop_session s.name (start h s opts m).1).log
        ⊎ Memᴰ (found_dead p) (stop_session s.name (start h s opts m).1).log
        ⊎ (p.name ≡ codes "app-forward")
  start-stop s opts m info idle q p i e = go ((start-IsFiled h s opts m idle info q).at p i)
    where
      go :
          Memᴰ (p.name, some p.pid) (start h s opts m).1.pids
            ⊎ Memᴰ (found_dead p) (start h s opts m).1.log
            ⊎ (p.name ≡ codes "app-forward")
          → Memᴰ (signalled p) (stop_session s.name (start h s opts m).1).log
            ⊎ Memᴰ (found_dead p) (stop_session s.name (start h s opts m).1).log
            ⊎ (p.name ≡ codes "app-forward")
      go (inl j) = inl (stop_session-signals s.name (start h s opts m).1 p j e)
      go (inr (inl j)) = inr (inl (stop_session-keeps s.name (found_dead p) (start h s opts m).1 j))
      go (inr (inr j)) = inr (inr j)
