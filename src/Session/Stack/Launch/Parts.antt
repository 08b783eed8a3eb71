-- ===== src/Session/Stack/Launch/Parts.antt =====
-- Each part of `Start` holds what it launches.
use interviews.Base.{
  ℕ, ◌≡◌, refl, sym, ap, ◌∙◌, subst, ◌⊎◌, inl, inr, Bool, true, false, List, [], ◌∷◌, ◌++◌, Memᴰ,
  Option, none, some, Str, codes, ◌==◌, ==_refl, if_rule, if◌then◌else◌,
}
use interviews.Session.Stack.Types.{
  Proc, Event, launched, ran, StartOptions, Host, Desk, StartError, no_account, share_failed,
  pipe_failed, logged, put_pid, TmuxCtl, tmux_cmd, run_tmux,
}
use interviews.Session.Stack.Launch.{
  Launched, not_started, unrecorded, on_file, write_pidfile, start_process, fail, or_failed,
  give_access, opened, share_or_pipe,
}
use interviews.Session.Stack.Launch.Tracked.{
  IsQuiet, quiet_ran, IsTracked-quiet, IsTracked-launched, mem-put_pid, put_pid-mem, IsHeld, Holds,
}

true-false : true ≡ false → ⊥
true-false h = cc

-- no name used so far
abbrev pub IsFresh : List Str → Str → Type 0
IsFresh used name = (n : Str) → Memᴰ n used → (n == name) ≡ false

append-mem : {A : Type 0} {x : A} (xs ys : List A) → Memᴰ x (xs ++ ys) → Memᴰ x xs ⊎ Memᴰ x ys
append-mem [] ys m = inr m
append-mem (y ∷ xs) ys (Memᴰ.head e) = inl (Memᴰ.head e)
append-mem (y ∷ xs) ys (Memᴰ.tail m) = elim (append-mem xs ys m) [
  | inl k ↦ inl (Memᴰ.tail k)
  | inr k ↦ inr k
]

module _ {W : Type 0} (h : Host W) where
  -- What `startProcess` comes to, as a rule for what follows it.
  pub start_process_rule :
      (P : Launched × Desk W → Type 0) (name bin : Str) (args : List Str) (m : Desk W)
      → ((w : W) → P (not_started, record m { world = w }))
      → ((p : Proc) (w : W)
          → p.name ≡ name
          → P (unrecorded p, record m { world = w; log = launched p ∷ m.log }))
      → ((p : Proc) (w : W)
          → p.name ≡ name
          → P (
            on_file p,
            record m { world = w; log = launched p ∷ m.log; pids = put_pid m.pids p.name p.pid },
          ))
      → P (start_process h name bin args m)
  unfolding start_process
  start_process_rule P name bin args m a b c =
      go ((h.launch bin args m.world).0) ((h.launch bin args m.world).1)
    where
      written :
          (pid : ℕ) (w : W) (good : Bool) (w' : W)
          → P (
              if good
              then (
                on_file (record { name = name; pid = pid }),
                record m {
                  world = w';
                  log = launched (record { name = name; pid = pid }) ∷ m.log;
                  pids = put_pid m.pids name pid;
                },
              )
              else (
                unrecorded (record { name = name; pid = pid }),
                record m { world = w'; log = launched (record { name = name; pid = pid }) ∷ m.log },
              ))
      written pid w true w' = c (record { name = name; pid = pid }) w' refl
      written pid w false w' = b (record { name = name; pid = pid }) w' refl

      go :
          (o : Option ℕ) (w : W)
          → P (elim o [
            | none ↦ (not_started, record m { world = w })
            | some pid ↦
                write_pidfile h
                  (record { name = name; pid = pid })
                  (logged (launched (record { name = name; pid = pid })) (record m { world = w }))
          ])
      go none w = a w
      go (some pid) w = written pid w ((h.write_pid name w).0) ((h.write_pid name w).1)

  -- a step that leaves the pidfiles alone and launches nothing
  IsHeld-quiet :
      (used : List Str) (m : Desk W) (w : W) (e : Event) (started : List Proc)
      → IsQuiet e
      → IsHeld used m started
      → IsHeld used (record m { world = w; log = e ∷ m.log }) started
  IsHeld-quiet used m w e started q k = record {
    tracked = IsTracked-quiet e m.log started q k.tracked;
    named = k.named;
    filed = k.filed;
    unique = k.unique;
  }

  -- one more process on file, under a fresh name
  pub IsHeld-launched :
      (used : List Str) (m : Desk W) (w : W) (p : Proc) (started : List Proc)
      → IsFresh used p.name
      → IsHeld used m started
      → IsHeld
          (p.name ∷ used)
          (record m { world = w; log = launched p ∷ m.log; pids = put_pid m.pids p.name p.pid })
          (started ++ p ∷ [])
  IsHeld-launched used m w p started fresh k = record {
    tracked = IsTracked-launched p m.log started k.tracked;
    named = λ q n. named q (append-mem started (p ∷ []) n);
    filed = λ q n. filed q (append-mem started (p ∷ []) n);
    unique = λ q r n i. unique q r (append-mem started (p ∷ []) n) (append-mem started (p ∷ []) i);
  }
    where
      apart : (q r : Proc) → Memᴰ q started → r ≡ p → q.name ≡ r.name → q ≡ r
      apart q r n e same = absurd (
          true-false (
            sym (==_refl p.name)
            ∙ ap (λ s. s == p.name) (sym (same ∙ ap (λ (x : Proc). x.name) e))
            ∙ fresh q.name (k.named q n)))

      unique :
          (q r : Proc)
          → Memᴰ q started ⊎ Memᴰ q (p ∷ [])
          → Memᴰ r started ⊎ Memᴰ r (p ∷ [])
          → q.name ≡ r.name
          → q ≡ r
      unique q r (inl n) (inl i) same = k.unique q r n i same
      unique q r (inl n) (inr (Memᴰ.head e)) same = apart q r n e same
      unique q r (inr (Memᴰ.head e)) (inl i) same = sym (apart r q i e (sym same))
      unique q r (inr (Memᴰ.head e)) (inr (Memᴰ.head f)) same = e ∙ sym f
      unique q r (inl n) (inr (Memᴰ.tail i)) same = elim i [ ]
      unique q r (inr (Memᴰ.tail n)) i same = elim n [ ]
      unique q r (inr (Memᴰ.head e)) (inr (Memᴰ.tail i)) same = elim i [ ]

      named : (q : Proc) → Memᴰ q started ⊎ Memᴰ q (p ∷ []) → Memᴰ q.name (p.name ∷ used)
      named q (inl n) = Memᴰ.tail (k.named q n)
      named q (inr (Memᴰ.head e)) = Memᴰ.head (ap (λ (x : Proc). x.name) e)
      named q (inr (Memᴰ.tail n)) = elim n [ ]

      filed :
          (q : Proc)
          → Memᴰ q started ⊎ Memᴰ q (p ∷ [])
          → Memᴰ (q.name, some q.pid) (put_pid m.pids p.name p.pid)
      filed q (inl n) =
          mem-put_pid p.name p.pid m.pids q.name (some q.pid) (fresh q.name (k.named q n))
            (k.filed q n)
      filed q (inr (Memᴰ.head e)) =
          subst (λ (x : Proc). Memᴰ (x.name, some x.pid) (put_pid m.pids p.name p.pid)) (sym e)
            (put_pid-mem p.name p.pid m.pids)
      filed q (inr (Memᴰ.tail n)) = elim n [ ]

  pub run_tmux_rule :
      (P : Bool × Desk W → Type 0) (t : TmuxCtl) (args : List Str) (m : Desk W)
      → ((good : Bool) (w : W) (bin : Str) (full : List Str)
          → P (good, record m { world = w; log = ran bin full ∷ m.log }))
      → P (run_tmux h t args m)
  unfolding run_tmux
  run_tmux_rule P t args m f =
      let (bin, full) = tmux_cmd t args in
      f ((h.command bin full m.world).0) ((h.command bin full m.world).1) bin full

  or_failed-Holds :
      (e : StartError) (good : Bool) (m : Desk W)
      → IsHeld [] m []
      → Holds [] (λ (u : Unit {0}). []) (or_failed h e (good, m))
  or_failed-Holds e true m k = k
  or_failed-Holds e false m k = k.tracked

  give_access-Holds :
      (server : TmuxCtl) (m : Desk W)
      → IsHeld [] m []
      → Holds [] (λ (u : Unit {0}). []) (give_access h server m)
  give_access-Holds server m k = go (h.account m.world)
    where
      go :
          (o : Option Str)
          → Holds {W = W} []
              (λ (u : Unit {0}). [])
              (elim o [
                | none ↦ fail [] no_account m
                | some me ↦ or_failed h share_failed (
                    run_tmux h server (codes "server-access" ∷ codes "-a" ∷ codes "-w" ∷ me ∷ []) m)
              ])
      go none = k.tracked
      go (some me) =
          run_tmux_rule (λ r. Holds [] (λ (u : Unit {0}). []) (or_failed h share_failed r)) server
            (codes "server-access" ∷ codes "-a" ∷ codes "-w" ∷ me ∷ []) m
            (λ good w bin full.
              or_failed-Holds share_failed good (record m { world = w; log = ran bin full ∷ m.log })
                (IsHeld-quiet [] m w (ran bin full) [] (quiet_ran bin full) k))

  opened-Holds :
      (server : TmuxCtl) (good : Bool) (m : Desk W)
      → IsHeld [] m []
      → Holds [] (λ (u : Unit {0}). []) (opened h server (good, m))
  opened-Holds server true m k = give_access-Holds server m k
  opened-Holds server false m k = k.tracked

  pub share_or_pipe-Holds :
      (opts : StartOptions) (name raw_log : Str) (m : Desk W)
      → IsHeld [] m []
      → Holds [] (λ (u : Unit {0}). []) (share_or_pipe h opts name raw_log m)
  unfolding share_or_pipe
  share_or_pipe-Holds opts name raw_log m k =
      let local : TmuxCtl = record { socket = opts.tmux_socket; user = [] } in
      let server : TmuxCtl = record { socket = opts.tmux_socket; user = opts.candidate_user } in
      let pipe =
        codes "pipe-pane" ∷ codes "-o" ∷ codes "-t" ∷ name ∷ (codes "cat >> " ++ raw_log) ∷ [] in
      let share = codes "run-shell" ∷ (codes "chmod 0660 " ++ opts.tmux_socket) ∷ [] in
      if_rule (Holds [] (λ (u : Unit {0}). [])) (opts.candidate_user == [])
        (or_failed h pipe_failed (run_tmux h local pipe m))
        (opened h server (run_tmux h server share m))
        (λ e.
          run_tmux_rule (λ r. Holds [] (λ (u : Unit {0}). []) (or_failed h pipe_failed r)) local
            pipe m
            (λ good w bin full.
              or_failed-Holds pipe_failed good (record m { world = w; log = ran bin full ∷ m.log })
                (IsHeld-quiet [] m w (ran bin full) [] (quiet_ran bin full) k)))
        (λ e.
          run_tmux_rule (λ r. Holds [] (λ (u : Unit {0}). []) (opened h server r)) server share m
            (λ good w bin full.
              opened-Holds server good (record m { world = w; log = ran bin full ∷ m.log })
                (IsHeld-quiet [] m w (ran bin full) [] (quiet_ran bin full) k)))
