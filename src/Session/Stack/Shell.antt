-- ===== src/Session/Stack/Shell.antt =====
-- internal/session/session.go: the command lines that `Start` writes. Paths are joined by a slash.
pub mod Words
use interviews.Base.{
  ℕ, Bool, true, false, List, [], ◌∷◌, ◌++◌, Option, none, some, Str, codes, ◌==◌, ◌=?◌, newline,
  Result, ok, err, ◌>>=◌, if◌then◌else◌,
}
use interviews.Session.Stack.Types.{
  StartError, no_port, no_self, no_namespace, no_service, TmuxCtl, tmux_cmd,
}
use interviews.Session.Stack.Launch.{AppRoute, app_port}

abbrev pub under : Str → Str → Str
under dir name = dir ++ codes "/" ++ name

-- `strings.Join` by spaces
abbrev pub spaced : List Str → Str
spaced [] = []
spaced (w ∷ []) = w
spaced (w ∷ v ∷ ws) = w ++ codes " " ++ spaced (v ∷ ws)

-- `tmuxCtl.line`
unfoldable pub tmux_line : TmuxCtl → List Str → Str
unfolding tmux_cmd
tmux_line t args = let (bin, full) = tmux_cmd t args in bin ++ codes " " ++ spaced full

-- `strings.ReplaceAll` of the quotes
unfoldable pub quote_chars : Str → Str
quote_chars [] = []
quote_chars (c ∷ s) =
    let rest = quote_chars s in if c =? 39 then codes "'\\''" ++ rest else c ∷ rest

-- `shQuote`
unfoldable pub sh_quote : Str → Str
unfolding quote_chars
sh_quote s = codes "'" ++ quote_chars s ++ codes "'"

abbrev lines : List Str → Str
lines [] = []
lines (l ∷ []) = l
lines (l ∷ k ∷ ls) = l ++ newline ∷ lines (k ∷ ls)

-- `recorderScript`
unfoldable pub recorder_script : Str → TmuxCtl → Str → Str
unfolding sh_quote tmux_line
recorder_script workdir client name =
    let cast = sh_quote (under workdir (codes "session.cast")) in
    let log = sh_quote (under workdir (codes "recorder.log")) in
    let ts = codes "$(date -u +%Y-%m-%dT%H:%M:%SZ)" in
    lines (
      (codes "cast=" ++ cast ++ codes "; n=0")
      ∷ codes "while :; do"
      ∷ (codes "  asciinema rec --overwrite --command "
          ++ sh_quote (tmux_line client (codes "attach" ∷ codes "-t" ∷ name ∷ []))
          ++ codes " \"$cast\"")
      ∷ (codes "  if ! "
          ++ tmux_line client (codes "has-session" ∷ codes "-t" ∷ name ∷ [])
          ++ codes " 2>/dev/null; then")
      ∷ (codes
            "    printf '%s the tmux session is gone without a stop; the recording ends with it\\n' \""
          ++ ts
          ++ codes "\" >> "
          ++ log)
      ∷ codes "    exit 0"
      ∷ codes "  fi"
      ∷ codes "  [ -s \"$cast\" ] || exit 1"
      ∷ (codes "  n=$((n+1)); cast=" ++ cast ++ codes ".$n")
      ∷ (codes
            "  printf '%s the recorder exited with the session still up; restarting into %s\\n' \""
          ++ ts
          ++ codes "\" \"${cast##*/}\" >> "
          ++ log)
      ∷ codes "  sleep 1"
      ∷ codes "done"
      ∷ [])

-- `AppSpec`
pub record AppSpec : Type 0 where
  pub service : Str
  pub port : Str
  pub path : Str

-- What `appPlan` reads of the engine and of the libraries: templates, `%q` and decimals.
pub record Plan : Type 0 where
  pub app : Option AppSpec
  pub provider : Str
  pub namespace : Option Str
  pub kubeconfig : Str
  pub executable : Option Str
  pub render : Str → Option Str
  pub quoted : Str → Str
  pub atoi : Str → Option ℕ
  pub itoa : ℕ → Str

abbrev or_error : {A : Type 0} → StartError → Option A → Result StartError A
or_error e none = err e
or_error e (some a) = ok a

-- `ProxyArgs`
unfoldable pub proxy_args : Plan → ℕ → List Str
proxy_args p target =
    codes "session"
    ∷ codes "proxy"
    ∷ codes "--from"
    ∷ p.itoa app_port
    ∷ codes "--to"
    ∷ p.itoa target
    ∷ []

-- a compose app, on the port that its variant drew
abbrev forward_route : Plan → AppSpec → ℕ → Result StartError (Option AppRoute)
forward_route p spec target = do
  self ← or_error no_self p.executable
  ok (
      some (record {
        path = spec.path;
        command = codes "exec " ++ p.quoted self ++ codes " " ++ spaced (proxy_args p target);
      }))

abbrev compose_route : Plan → AppSpec → Str → Result StartError (Option AppRoute)
compose_route p spec port = do
  target ← or_error no_port (p.atoi port)
  if target =? app_port
      then ok (some (record { path = spec.path; command = [] }))
      else forward_route p spec target

abbrev kind_route : Plan → AppSpec → Str → Result StartError (Option AppRoute)
kind_route p spec port = do
  ns ← or_error no_namespace p.namespace
  svc ← or_error no_service (p.render spec.service)
  ok (
      some (record {
        path = spec.path;
        command =
            codes "while :; do kubectl --kubeconfig "
            ++ p.quoted p.kubeconfig
            ++ codes " -n "
            ++ p.quoted ns
            ++ codes " port-forward --address 127.0.0.1 svc/"
            ++ svc
            ++ codes " "
            ++ p.itoa app_port
            ++ codes ":"
            ++ port
            ++ codes " >/dev/null 2>&1; sleep 2; done";
      }))

-- `appPlan`
abbrev plan_app : Plan → Option AppSpec → Result StartError (Option AppRoute)
plan_app p none = ok none
plan_app p (some spec) = do
  port ← or_error no_port (p.render spec.port)
  if p.provider == codes "kind" then kind_route p spec port else compose_route p spec port

unfoldable pub app_plan : Plan → Result StartError (Option AppRoute)
unfolding proxy_args
app_plan p = plan_app p p.app
