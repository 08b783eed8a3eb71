-- ===== src/Cli/Live/Started.antt =====
-- `start` of a local problem, down to the processes of its session.
use interviews.Base.{
  ℕ, Str, ◌≡◌, refl, sym, ◌∙◌, subst, Bool, true, if_rule, Option, none, some, Result, ok, err,
  if◌then◌else◌,
}
use interviews.Base.Exec.{>>=-returns}
use interviews.Interview.Store.{Session, Home, HomeError, save}
use interviews.Debug.Engine.{Substrate, Engine}
use interviews.Session.Stack.{Info, StartOptions, Host, Desk, StartError}
use interviews.Session.Stack.Launch.Forward.{IsFiled}
use interviews.Session.Stack.Start.{Setup, start}
use interviews.Session.Stack.Start.Idle.{IsIdle}
use interviews.Session.Stack.Start.Outcomes.{start-IsFiled}
use interviews.Cli.Commands.{
  Urls, Console, CommandError, no_engine, not_up, not_broken, not_started, call, given, fetch,
  saved, save_record, mark_current, with_urls, Request, local_record, bring_session_up, start_local,
}
use interviews.Cli.Live.{Bench, desk, put_desk, urls_of, live}

module _ {W : Type 0} (b : Substrate W) (h : Host W) (e : Engine) (s : Setup) (opts : StartOptions)
    (fuel : ℕ) (builds : Str → Str → Bench W → Bool)
    (evidence : Desk W → Result StartError (Unit {0}) × Desk W) where
  save_record-world : (t : Session) (c : Console (Bench W)) → (save_record t c).1.world ≡ c.world
  save_record-world t c = go (save t c.home)
    where
      go : (r : Result HomeError Home) → (saved r c).1.world ≡ c.world
      go (ok h') =
          if_rule (λ (x : Result CommandError (Unit {0}) × Console (Bench W)). x.1.world ≡ c.world)
            (c.disk 0) _ _ (λ _. refl) (λ _. refl)
      go (err x) = refl

  mark_current-world :
      (seed : Str) (c : Console (Bench W)) → (mark_current seed c).1.world ≡ c.world
  mark_current-world seed c =
      if_rule (λ (x : Result CommandError (Unit {0}) × Console (Bench W)). x.1.world ≡ c.world)
        (c.disk 0) _ _ (λ _. refl) (λ _. refl)

  started_desk :
      (c : Console (Bench W)) (urls : Urls)
      → (fetch not_started (live b h e s opts fuel builds evidence).start c).0 ≡ ok urls
      → IsIdle (desk c.world)
      → IsFiled (desk (fetch not_started (live b h e s opts fuel builds evidence).start c).1.world)
  unfolding live
  started_desk c urls q idle = go ((start h s opts (desk c.world)).0) refl q
    where
      filed :
          (info : Info)
          → (start h s opts (desk c.world)).0 ≡ ok info
          → IsFiled (desk (put_desk (start h s opts (desk c.world)).1 c.world))
      filed info r = record { at = (start-IsFiled h s opts (desk c.world) idle info r).at }

      given-world : (o : Option Urls) (d : Console (Bench W)) → (given not_started o d).1 ≡ d
      given-world none d = refl
      given-world (some u) d = refl

      go :
          (r : Result StartError Info)
          → (start h s opts (desk c.world)).0 ≡ r
          → (given not_started
              (urls_of r)
              (record c { world = put_desk (start h s opts (desk c.world)).1 c.world })).0
            ≡ ok urls
          → IsFiled (
              desk
                (given not_started (urls_of (start h s opts (desk c.world)).0) (record c {
                  world = put_desk (start h s opts (desk c.world)).1 c.world;
                })).1.world)
      go (err x) r k = cc
      go (ok info) r k =
          subst (λ (d : Console (Bench W)). IsFiled (desk d.world))
            (sym (
              given-world (urls_of (start h s opts (desk c.world)).0)
                (record c { world = put_desk (start h s opts (desk c.world)).1 c.world })))
            (filed info r)

  bring_session_up-IsFiled :
      (q : Request) (r t : Session) (c : Console (Bench W))
      → IsIdle (desk c.world)
      → (bring_session_up (live b h e s opts fuel builds evidence) q r c).0 ≡ ok t
      → IsFiled (desk (bring_session_up (live b h e s opts fuel builds evidence) q r c).1.world)
  unfolding bring_session_up live
  bring_session_up-IsFiled q r t c idle k =
      let l = live b h e s opts fuel builds evidence in
      let inject = call not_broken (λ v. if q.no_break then (true, v) else l.inject v) in
      let (_, _, k1, e1) = >>=-returns (call not_up l.up) _ c k in
      let c1 = (call not_up l.up c).1 in
      let (_, _, k2, e2) = >>=-returns inject _ c1 k1 in
      let c2 = (inject c1).1 in
      let (urls, f, k3, e3) = >>=-returns (fetch not_started l.start) _ c2 k2 in
      let c3 = (fetch not_started l.start c2).1 in
      let (_, _, k4, e4) = >>=-returns (save_record (with_urls r urls)) _ c3 k3 in
      subst (λ (x : Result CommandError Session × Console (Bench W)). IsFiled (desk x.1.world))
        (sym (e1 ∙ e2 ∙ e3 ∙ e4))
        (subst (λ (w : Bench W). IsFiled (desk w)) (sym (save_record-world (with_urls r urls) c3))
          (started_desk c2 urls f (
            if_rule (λ (x : Bool × Bench W). IsIdle (desk x.1)) q.no_break (true, c1.world)
              (l.inject c1.world) (λ _. idle) (λ _. idle))))

  -- When `start` of a local problem returns, on a machine that had launched nothing, each process that the session
  -- launched has its pid in the pidfile of its name, or was seen gone, or is the forwarder of the app.
  pub start_local-IsFiled :
      (q : Request) (t : Session) (c : Console (Bench W))
      → IsIdle (desk c.world)
      → (start_local (live b h e s opts fuel builds evidence) q c).0 ≡ ok t
      → IsFiled (desk (start_local (live b h e s opts fuel builds evidence) q c).1.world)
  unfolding start_local live
  start_local-IsFiled q t c idle k =
      let l = live b h e s opts fuel builds evidence in
      let r = local_record q (l.now c.world) in
      let (_, _, k0, e0) =
        >>=-returns (call no_engine (λ v. (builds q.problem q.seed c.world, v))) _ c k in
      let (_, _, k1, e1) = >>=-returns (save_record r) _ c k0 in
      let c1 = (save_record r c).1 in
      let (_, _, k2, e2) = >>=-returns (mark_current q.seed) _ c1 k1 in
      let c2 = (mark_current q.seed c1).1 in
      let same = mark_current-world q.seed c1 ∙ save_record-world r c in
      subst (λ (x : Result CommandError Session × Console (Bench W)). IsFiled (desk x.1.world))
        (sym (e0 ∙ e1 ∙ e2))
        (bring_session_up-IsFiled q r t c2
          (subst (λ (w : Bench W). IsIdle (desk w)) (sym same) idle) k2)
